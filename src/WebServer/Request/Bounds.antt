-- ===== src/WebServer/Request/Bounds.antt =====
-- Bounds of `ReadHttpRequest`, and completeness of `WriteAllSsl`, of
-- chime/src/webd/web_server.cpp.
use virtualchime.Base.{
  ℕ, zero, suc, ◌≤◌, ◌≡◌, refl, sym, ap, ◌∙◌, arith, Bool, true, false, ◌||◌, List, [], ◌∷◌, ◌++◌,
  Option, none, some, Bytes, codes, length, take, drop, ltb, is_empty, Bool-cases, inl, inr, ◌==◌,
}
use virtualchime.Text.{get_lines}
use virtualchime.WifiScan.{drop_cr}
use virtualchime.WebServer.{HttpRequest}
use virtualchime.WebServer.Texts.{find_value}
use virtualchime.WebServer.Request.{
  Result, done, error, Headers, read_headers, read_body, request_of, with_length, with_headers,
  with_read, read_http_request, write_all_ssl, max_body_bytes, next_word, header_values,
  content_length_of,
}

-- A request that is read has a body within the limit.
data Bounded : Result HttpRequest → Type 0 where
  failed : {e : Bytes} → Bounded (error e)
  within : {request : HttpRequest} → length request.body ≤ max_body_bytes → Bounded (done request)

length-take : (n : ℕ) (s : Bytes) → length (take n s) ≤ n
length-take zero [] = omega arith
length-take zero (c ∷ cs) = omega arith
length-take (suc n) [] = omega arith
length-take (suc n) (c ∷ cs) = omega (arith, length-take n cs)

request_of-Bounded :
    (method path : Bytes) (headers : List (Bytes × Bytes)) (n : ℕ) (r : Result Bytes)
    → n ≤ max_body_bytes
    → Bounded (request_of method path headers n r)
unfolding request_of
request_of-Bounded method path headers n (error e) h = failed
request_of-Bounded method path headers n (done body) h = within (omega (arith, length-take n body))

with_length-Bounded :
    (method path : Bytes) (headers : List (Bytes × Bytes)) (h : Headers) (n : Option ℕ)
    → Bounded (with_length method path headers h n)
unfolding with_length
with_length-Bounded method path headers h none = failed
with_length-Bounded method path headers h (some n) = elim (Bool-cases (ltb max_body_bytes n)) [
  | inl e ↦ rw e failed
  | inr e ↦
      rw e (
        request_of-Bounded method path headers n (read_body n h.unread h.behind)
          (ground (arith, e)))
]

with_headers-Bounded : (h : Headers) (lines : List Bytes) → Bounded (with_headers h lines)
unfolding with_headers
with_headers-Bounded h [] = failed
with_headers-Bounded h (line ∷ lines) =
    let (method, behind_method) = next_word (drop_cr line) in
    let (path, behind_path) = next_word behind_method in
    let (version, rest) = next_word behind_path in
    let headers = header_values [] lines in
    elim (Bool-cases (is_empty method || (is_empty path || is_empty version))) [
      | inl e ↦ rw e failed
      | inr e ↦ rw e (
          with_length-Bounded method path headers h
            (content_length_of (find_value (codes "content-length") headers)))
    ]

with_read-Bounded : (r : Result Headers) → Bounded (with_read r)
unfolding with_read
with_read-Bounded (error e) = failed
with_read-Bounded (done h) = with_headers-Bounded h (get_lines h.header_blob)

Bounded-done :
    {r : Result HttpRequest} (request : HttpRequest)
    → r ≡ done request
    → Bounded r
    → length request.body ≤ max_body_bytes
Bounded-done request e failed = absurd (cc e)
Bounded-done request e (within h) = ground (arith, e)

-- The body of a request that `ReadHttpRequest` accepts has at most 2 MiB, whatever the client sends
-- and however it comes in.
pub read_http_request-bounded :
    (reads : List Bytes) (request : HttpRequest)
    → read_http_request reads ≡ done request
    → length request.body ≤ max_body_bytes
unfolding read_http_request
read_http_request-bounded reads request h =
    Bounded-done request h (with_read-Bounded (read_headers reads []))

take-take-drop :
    (n m : ℕ) (t : Bytes) → take n (take m t) ++ drop (length (take n (take m t))) t ≡ t
take-take-drop zero zero [] = refl
take-take-drop zero zero (c ∷ t) = refl
take-take-drop (suc n) zero [] = refl
take-take-drop (suc n) zero (c ∷ t) = refl
take-take-drop zero (suc m) [] = refl
take-take-drop zero (suc m) (c ∷ t) = refl
take-take-drop (suc n) (suc m) [] = refl
take-take-drop (suc n) (suc m) (c ∷ t) = ap (λ x. c ∷ x) (take-take-drop n m t)

abbrev left_over : ℕ → Bytes → Bytes
left_over written t = drop (length (take written (take 16384 t))) t

zero_step :
    (written : ℕ) (writes : List ℕ) (c : ℕ) (cs : Bytes)
    → (written == 0) ≡ true
    → write_all_ssl (written ∷ writes) (c ∷ cs) ≡ ([], false)
unfolding write_all_ssl
zero_step written writes c cs e = rw e refl

write_step :
    (written : ℕ) (writes : List ℕ) (c : ℕ) (cs : Bytes)
    → (written == 0) ≡ false
    → write_all_ssl (written ∷ writes) (c ∷ cs) ≡ (
      take written (take 16384 (c ∷ cs)) ++ (write_all_ssl writes (left_over written (c ∷ cs))).0,
      (write_all_ssl writes (left_over written (c ∷ cs))).1,
    )
unfolding write_all_ssl
write_step written writes c cs e = rw e refl

-- `WriteAllSsl` returns true only if it has sent the whole text, in order and nothing else, however
-- much of it each call of `SSL_write` takes.
pub write_all_ssl_complete :
    (writes : List ℕ) (text : Bytes)
    → (write_all_ssl writes text).1 ≡ true
    → (write_all_ssl writes text).0 ≡ text
write_all_ssl_complete writes [] h = unfold write_all_ssl in refl
write_all_ssl_complete [] (c ∷ cs) h = absurd (unfold write_all_ssl in cc h)
write_all_ssl_complete (written ∷ writes) (c ∷ cs) h = elim (Bool-cases (written == 0)) [
  | inl e ↦
      let bad : false ≡ true =
        sym (ap (λ (x : Bytes × Bool). x.1) (zero_step written writes c cs e)) ∙ h in
      absurd (cc bad)
  | inr e ↦
      let step = write_step written writes c cs e in
      let rest = left_over written (c ∷ cs) in
      let ends : (write_all_ssl writes rest).1 ≡ true =
        sym (ap (λ (x : Bytes × Bool). x.1) step) ∙ h in
      ap (λ (x : Bytes × Bool). x.0) step
      ∙ ap (λ x. take written (take 16384 (c ∷ cs)) ++ x) (write_all_ssl_complete writes rest ends)
      ∙ take-take-drop written 16384 (c ∷ cs)
]
