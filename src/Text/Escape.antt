-- ===== src/Text/Escape.antt =====
-- `EscapeShellDoubleQuotes` and `SanitizePayloadForLog` of common/src/util/strings.cpp, in the "C"
-- locale.
use virtualchime.Base.{
  inl, inr, ap, ◌∙◌, Bool-cases, ℕ, ◌==◌, Bool, true, false, not, ◌&&◌, ◌||◌, List, [], ◌∷◌, ◌≡◌,
  refl, arith, if◌then◌else◌, leb, all, Bytes,
}

unfoldable pub is_shell_special : ℕ → Bool
is_shell_special c = (c == b'"') || ((c == b'\\') || ((c == b'$') || (c == b'`')))

unfoldable pub escape_shell_double_quotes : Bytes → Bytes
unfolding is_shell_special
escape_shell_double_quotes [] = []
escape_shell_double_quotes (c ∷ cs) =
    let rest = escape_shell_double_quotes cs in
    if is_shell_special c then b'\\' ∷ c ∷ rest else c ∷ rest

-- `isprint` of the C library.
abbrev pub is_print : ℕ → Bool
is_print c = leb 32 c && leb c 126

unfoldable pub sanitize_payload_for_log : Bytes → Bytes
sanitize_payload_for_log [] = []
sanitize_payload_for_log (c ∷ cs) =
    let rest = sanitize_payload_for_log cs in
    if c == b'\n'
    then b'\\' ∷ b'n' ∷ rest
    else if c == b'\r'
    then b'\\' ∷ b'r' ∷ rest
    else if c == b'\t'
    then b'\\' ∷ b't' ∷ rest
    else if is_print c
    then c ∷ rest
    else b'?' ∷ rest

-- What a shell makes of the text between double quotes, without expansions: none where a byte that
-- it would act on stands bare.
pub unescape_shell : Bytes → List ℕ × Bool
unfolding is_shell_special
unescape_shell [] = ([], true)
unescape_shell (c ∷ []) = (c ∷ [], not (is_shell_special c))
unescape_shell (c ∷ d ∷ cs) =
    let (text, inert) = unescape_shell cs in
    let (text', inert') = unescape_shell (d ∷ cs) in
    if (c == b'\\') && is_shell_special d
    then (d ∷ text, inert)
    else (c ∷ text', not (is_shell_special c) && inert')

escape_step :
    (c : ℕ) (r : Bytes)
    → is_shell_special c ≡ true
    → unescape_shell (b'\\' ∷ c ∷ r) ≡ (c ∷ (unescape_shell r).0, (unescape_shell r).1)
unfolding unescape_shell is_shell_special
escape_step c r h = ground (arith, h)

plain_step :
    (c : ℕ) (r : Bytes)
    → is_shell_special c ≡ false
    → unescape_shell (c ∷ r) ≡ (c ∷ (unescape_shell r).0, (unescape_shell r).1)
unfolding unescape_shell is_shell_special
plain_step c [] h = ground (arith, h)
plain_step c (d ∷ r) h = ground (arith, h)

-- Between double quotes a shell reads the escaped text as the text itself, and no byte of it as a
-- quote, an expansion or a command.
pub unescape-escape_shell : (s : Bytes) → unescape_shell (escape_shell_double_quotes s) ≡ (s, true)
unfolding escape_shell_double_quotes
unescape-escape_shell [] = unfold unescape_shell in refl
unescape-escape_shell (c ∷ cs) =
    let rest = unescape-escape_shell cs in
    let r = escape_shell_double_quotes cs in
    elim (Bool-cases (is_shell_special c)) [
      | inl e ↦ rw e (escape_step c r e ∙ ap (λ (x : Bytes × Bool). (c ∷ x.0, x.1)) rest)
      | inr e ↦ rw e (plain_step c r e ∙ ap (λ (x : Bytes × Bool). (c ∷ x.0, x.1)) rest)
    ]

-- Whatever the payload, the logged text is printable, so it stays on its line.
pub sanitize_payload_for_log_printable :
    (s : Bytes) → all is_print (sanitize_payload_for_log s) ≡ true
unfolding sanitize_payload_for_log
sanitize_payload_for_log_printable [] = refl
sanitize_payload_for_log_printable (c ∷ cs) = ground (arith, sanitize_payload_for_log_printable cs)
