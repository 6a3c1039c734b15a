-- ===== src/ConfigStore/Wpa/Quotes.antt =====
-- Quoting and unquoting of the values in wpa_supplicant.conf.
use virtualchime.Base.{ℕ, false, [], ◌∷◌, ◌++◌, ◌≡◌, refl, ap, ◌∙◌, arith, Bytes}
use virtualchime.Text.Trim.{IsTrimmed, IsTrimmed-append, trim_id}
use virtualchime.ConfigStore.Wpa.{
  last_or, init, unescape, strip_trimmed, strip_quotes, escape_for_wpa, quote_for_wpa,
}

last_or-append : (d : ℕ) (s : Bytes) (c : ℕ) → last_or d (s ++ c ∷ []) ≡ c
unfolding last_or
last_or-append d [] c = refl
last_or-append d (e ∷ s) c = last_or-append e s c

init-append : (s : Bytes) (c : ℕ) → init (s ++ c ∷ []) ≡ s
unfolding init
init-append [] c = refl
init-append (d ∷ []) c = refl
init-append (d ∷ e ∷ s) c = ap (◌∷◌ d) (init-append (e ∷ s) c)

unescape-escape_for_wpa : (s : Bytes) → unescape false (escape_for_wpa s) ≡ s
unfolding unescape escape_for_wpa
unescape-escape_for_wpa [] = refl
unescape-escape_for_wpa (c ∷ s) = ground (arith, unescape-escape_for_wpa s)

strip_trimmed_quoted : (s : Bytes) → strip_trimmed (b'"' ∷ (s ++ b'"' ∷ [])) ≡ unescape false s
unfolding strip_trimmed
strip_trimmed_quoted [] = refl
strip_trimmed_quoted (c ∷ s) = rw (last_or-append c s b'"', init-append (c ∷ s) b'"')

pub quote_for_wpa-IsTrimmed : (s : Bytes) → IsTrimmed (quote_for_wpa s)
unfolding quote_for_wpa
quote_for_wpa-IsTrimmed s = IsTrimmed-append b'"' (escape_for_wpa s) b'"' [] refl refl

-- Unquoting gives back any value that was quoted, whatever quotes and backslashes it holds.
pub strip_quotes-quote_for_wpa : (s : Bytes) → strip_quotes (quote_for_wpa s) ≡ s
unfolding strip_quotes
strip_quotes-quote_for_wpa s =
    rw (trim_id (quote_for_wpa s) (quote_for_wpa-IsTrimmed s))
      (unfold quote_for_wpa in strip_trimmed_quoted (escape_for_wpa s) ∙ unescape-escape_for_wpa s)
