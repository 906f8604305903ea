-- ===== src/Redaction/Patterns.antt =====
-- .cursor/hooks/lib/redaction.py: the table of secret patterns.
-- A pattern is cut in three where its replacement keeps groups: `\1`, what is dropped, `\2`.
use omnicursor.Prelude.{ℕ, zero, suc, Bool, false, not, ◌||◌, List, [], ◌∷◌, ◌==◌}
use omnicursor.Text.{Text, codes, is_space, is_lower, is_upper, is_digit}
use omnicursor.Regex.{
  Regex, eps, set, seq, alt, star, bound, plus, opt, chr, lit, lit_i, set_i, space, non_space,
  times, at_least, cat,
}

pub record Secret : Type 0 where
  pub kept_before : Regex
  pub dropped : Regex
  pub kept_after : Regex
  pub label : Text

-- a pattern with no group
whole : Regex → Text → Secret
whole r label = record { kept_before = eps; dropped = r; kept_after = eps; label = label }

-- a pattern whose replacement is `\1***REDACTED***`
labelled : Regex → Regex → Secret
labelled before r = record {
  kept_before = before;
  dropped = r;
  kept_after = eps;
  label = codes "***REDACTED***";
}

is_letter : ℕ → Bool
unfolding is_lower is_upper
is_letter c = is_lower c || is_upper c

is_alnum : ℕ → Bool
unfolding is_letter is_digit
is_alnum c = is_letter c || is_digit c

one_of : Text → ℕ → Bool
one_of [] c = false
one_of (x ∷ xs) c = c == x || one_of xs c

none_of : Text → ℕ → Bool
unfolding one_of is_space
none_of xs c = not (one_of xs c || is_space c)

-- the first of the words that matches
words_i : List Text → Regex
words_i [] = eps
words_i (w ∷ []) = lit_i w
words_i (w ∷ v ∷ ws) = alt (lit_i w) (words_i (v ∷ ws))

-- `(?:r){0,n}?`: as few rounds as will do
lazy_upto : ℕ → Regex → Regex
lazy_upto zero r = eps
lazy_upto (suc n) r = alt eps (seq r (lazy_upto n r))

-- `['"]?`
quote_opt : Regex
unfolding one_of
quote_opt = opt (set (one_of (codes "'\"")))

-- `(?:r )?` for one of the words
prefix_opt : List Text → Regex
prefix_opt [] = eps
prefix_opt (w ∷ ws) = alt (lit w) (prefix_opt ws)

-- `\b(sk|pk|rk)_(live|test)_[a-zA-Z0-9]{24,}`
stripe : Regex
unfolding words_i is_alnum
stripe = cat (
    bound
    ∷ words_i (codes "sk" ∷ codes "pk" ∷ codes "rk" ∷ [])
    ∷ chr b'_'
    ∷ words_i (codes "live" ∷ codes "test" ∷ [])
    ∷ chr b'_'
    ∷ at_least 24 (set is_alnum)
    ∷ [])

-- one part of a JSON web token
token_chars : Regex
unfolding is_alnum one_of
token_chars = star (set (λ c. is_alnum c || one_of (codes "_-") c))

jwt : Regex
unfolding token_chars
jwt = cat (
    bound
    ∷ lit (codes "eyJ")
    ∷ token_chars
    ∷ lit (codes ".eyJ")
    ∷ token_chars
    ∷ chr b'.'
    ∷ token_chars
    ∷ [])

pem_header : Regex
unfolding prefix_opt
pem_header = cat (
    lit (codes "-----BEGIN ")
    ∷ prefix_opt
        (codes "RSA " ∷ codes "EC " ∷ codes "DSA " ∷ codes "OPENSSH " ∷ codes "ENCRYPTED " ∷ [])
    ∷ lit (codes "PRIVATE KEY-----")
    ∷ [])

-- the password of a URL's authority, between `://user:` and `@`
url_password : Secret
unfolding none_of
url_password = record {
  kept_before = cat (lit (codes "://") ∷ plus (set (none_of (codes ":/@"))) ∷ chr b':' ∷ []);
  dropped = plus (set (none_of (codes "@/")));
  kept_after = chr b'@';
  label = codes "***REDACTED***";
}

-- key=value with a key of the list
key_value : Secret
unfolding labelled words_i one_of none_of quote_opt
key_value =
    labelled
      (cat (
        bound
        ∷ words_i (
            codes "password"
            ∷ codes "passwd"
            ∷ codes "secret"
            ∷ codes "token"
            ∷ codes "api_key"
            ∷ codes "apikey"
            ∷ codes "auth"
            ∷ [])
        ∷ star space
        ∷ set (one_of (codes "=:"))
        ∷ star space
        ∷ []))
      (cat (quote_opt ∷ at_least 8 (set (none_of (codes "'\""))) ∷ quote_opt ∷ []))

-- a key whose name holds one of the words
key_name : Secret
unfolding labelled words_i one_of quote_opt is_letter is_alnum
key_name =
    labelled
      (cat (
        quote_opt
        ∷ set is_letter
        ∷ star (set (λ c. is_alnum c || c == b'_'))
        ∷ words_i (
            codes "secret"
            ∷ codes "token"
            ∷ codes "passwd"
            ∷ codes "password"
            ∷ codes "apikey"
            ∷ codes "api_key"
            ∷ codes "credential"
            ∷ [])
        ∷ star (set (λ c. is_alnum c || c == b'_'))
        ∷ quote_opt
        ∷ star space
        ∷ set (one_of (codes ":="))
        ∷ star space
        ∷ []))
      (cat (quote_opt ∷ at_least 8 (set (λ c. is_alnum c || one_of (codes "+/=_.-") c)) ∷ []))

-- "the password is ..."
prose : Secret
unfolding labelled words_i one_of lazy_upto is_alnum
prose =
    labelled
      (cat (
        bound
        ∷ alt
            (words_i (codes "password" ∷ codes "passwd" ∷ codes "secret" ∷ codes "credential" ∷ []))
            (alt
              (cat
                (lit_i (codes "api") ∷ opt (set (one_of (codes "_ "))) ∷ lit_i (codes "key") ∷ []))
              (lit_i (codes "token")))
        ∷ bound
        ∷ lazy_upto 4 (seq (plus space) (plus non_space))
        ∷ plus space
        ∷ alt (words_i (codes "is" ∷ codes "was" ∷ [])) (set (one_of (codes "=:")))
        ∷ star space
        ∷ opt (set (one_of (codes "`'\"")))
        ∷ []))
      (at_least 10 (set (λ c. is_alnum c || one_of (codes "!@#$%^&*()_+-.") c)))

-- `_SECRET_PATTERNS`, in the order in which they are applied.
unfoldable pub secret_patterns : List Secret
unfolding whole labelled is_alnum one_of stripe jwt pem_header url_password key_value key_name prose
secret_patterns =
    whole (cat (bound ∷ lit_i (codes "sk-") ∷ at_least 20 (set is_alnum) ∷ []))
      (codes "sk-***REDACTED***")
    ∷ whole (cat (bound ∷ lit_i (codes "AKIA") ∷ times 16 (set is_alnum) ∷ []))
        (codes "AKIA***REDACTED***")
    ∷ whole (cat (bound ∷ lit_i (codes "ghp_") ∷ times 36 (set is_alnum) ∷ []))
        (codes "ghp_***REDACTED***")
    ∷ whole (cat (bound ∷ lit_i (codes "gho_") ∷ times 36 (set is_alnum) ∷ []))
        (codes "gho_***REDACTED***")
    ∷ whole
        (cat (
          bound
          ∷ lit_i (codes "xox")
          ∷ set_i (one_of (codes "baprs"))
          ∷ chr b'-'
          ∷ at_least 10 (set (λ c. is_alnum c || c == b'-'))
          ∷ []))
        (codes "xox*-***REDACTED***")
    ∷ whole stripe (codes "stripe_***REDACTED***")
    ∷ whole
        (cat (
          bound
          ∷ lit (codes "AIza")
          ∷ times 35 (set (λ c. is_alnum c || one_of (codes "-_") c))
          ∷ []))
        (codes "AIza***REDACTED***")
    ∷ whole jwt (codes "jwt_***REDACTED***")
    ∷ whole pem_header (codes "-----BEGIN ***REDACTED*** PRIVATE KEY-----")
    ∷ labelled (cat (lit_i (codes "Bearer") ∷ plus space ∷ []))
        (at_least 20 (set (λ c. is_alnum c || one_of (codes "._-") c)))
    ∷ url_password
    ∷ key_value
    ∷ key_name
    ∷ prose
    ∷ []
