-- ===== src/Emit/Replies.antt =====
-- How the client reads the reply of the daemon.
use omnicursor.Prelude.{
  ℕ, ◌+◌, ◌≤◌, ◌≡◌, refl, ap, ◌∙◌, Bool, false, Option, none, some, List, [], ◌∷◌, ◌++◌, ◌==◌, any,
  ltb, length, length-append, if◌then◌else◌, All, arith, Bool-cases, inl, inr,
}
use omnicursor.Text.{Text, codes, is_empty, strip}
use omnicursor.Json.{Json, Fields}
use omnicursor.Emit.{
  newline, max_response_bytes, receive, first_line, connected, parse_reply, reply_of, object_of,
  request, has_status, send_event,
}

-- the chunks one after the other
abbrev pub whole : List Text → Text
whole [] = []
whole (c ∷ cs) = c ++ whole cs

-- what `recv` gives of chunks before the end of the stream
abbrev pub sent : List Text → List (Option Text)
sent [] = some [] ∷ []
sent (c ∷ cs) = some c ∷ sent cs

abbrev has_newline : Text → Bool
has_newline c = any (λ b. b == newline) c

first_line-append :
    (s t : Text) → first_line (s ++ t) ≡ (if has_newline s then first_line s else s ++ first_line t)
unfolding first_line
first_line-append [] t = refl
first_line-append (c ∷ s) t = ground (arith, first_line-append s t)

-- a text that begins as the chunks do, up to the first newline
record Reads (total : ℕ) (cs : List Text) : Type 0 where
  pub text : Text
  pub reads : receive total (sent cs) ≡ some text
  pub agrees : first_line text ≡ first_line (whole cs)

more-Reads :
    (total : ℕ) (c : ℕ) (s : Text) (cs : List Text)
    → total + length ((c ∷ s) ++ whole cs) ≤ max_response_bytes
    → Reads (total + length (c ∷ s)) cs
    → Reads total ((c ∷ s) ∷ cs)
unfolding receive
more-Reads total c s cs le r =
    let small = length-append {0} (c ∷ s) (whole cs) in
    let fits : ltb max_response_bytes (total + length (c ∷ s)) ≡ false =
      ground (arith, le, small) in
    elim (Bool-cases (has_newline (c ∷ s))) [
      | inl e ↦ record {
        text = c ∷ s;
        reads = rw (fits, e) refl;
        agrees = rw (first_line-append (c ∷ s) (whole cs), e) refl;
      }
      | inr e ↦ record {
        text = (c ∷ s) ++ r.text;
        reads = rw (fits, e, r.reads) refl;
        agrees =
            rw (first_line-append (c ∷ s) r.text, first_line-append (c ∷ s) (whole cs), e, r.agrees)
              refl;
      }
    ]

sent-Reads :
    (total : ℕ) (cs : List Text)
    → All (λ c. is_empty c ≡ false) cs
    → total + length (whole cs) ≤ max_response_bytes
    → Reads total cs
unfolding receive is_empty
sent-Reads total [] h le = record { text = []; reads = refl; agrees = refl }
sent-Reads total ([] ∷ cs) (e, h) le = absurd (cc (e))
sent-Reads total ((c ∷ s) ∷ cs) (e, h) le =
    let small = length-append {0} (c ∷ s) (whole cs) in
    more-Reads total c s cs le (sent-Reads (total + length (c ∷ s)) cs h (omega (arith, le, small)))

verdict : (Text → Text) → (Text → Option Json) → Text → Option Fields
unfolding parse_reply is_empty
verdict decode loads line =
    if is_empty (strip (decode line)) then none else object_of (loads (strip (decode line)))

-- However a reply of at most a megabyte is cut into chunks, the verdict on an event is the one on
-- the whole reply: its first line alone counts.
pub send_event-whole :
    (decode : Text → Text) (loads : Text → Option Json) (cs : List Text)
    → All (λ c. is_empty c ≡ false) cs
    → length (whole cs) ≤ max_response_bytes
    → send_event decode loads (connected (sent cs))
      ≡ has_status decode loads (codes "queued") (parse_reply decode loads (whole cs))
unfolding send_event request parse_reply verdict
send_event-whole decode loads cs h le =
    let r = sent-Reads 0 cs h (omega (arith, le)) in
    ap (λ o. has_status decode loads (codes "queued") (reply_of decode loads o)) r.reads
    ∙ ap (λ t. has_status decode loads (codes "queued") (verdict decode loads t)) r.agrees
