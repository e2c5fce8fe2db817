-- ===== src/Control/Http/Framed.antt =====
-- The response that `render_response` writes, as `parse_headers` reads it.
use lazyd.Base.{
  ℕ, ◌+◌, ◌-◌, ◌<◌, ◌≡◌, refl, ap, sym, ◌∙◌, ◌⊎◌, inl, inr, arith, Text, Bytes, text, decimal,
  decimal-any, Bool, false, none, some, Option, List, [], ◌∷◌, ◌++◌, length, take, drop, any, leb,
  append_assoc, length-append, u64_end,
}
use lazyd.Errors.{Result, ok}
use lazyd.Control.{Response}
use lazyd.Control.Http.{
  blank_line, find_header_end, lines, all_lines, first_length, parse_headers, reason_of,
  type_header, head_of, crlf,
}
use lazyd.Control.Http.Joined.{
  is_break, IsPlain, AllLines, joined, blank_line-joined, lines_of-joined,
}
use lazyd.Control.Http.Lengths.{content_length-decimal}

abbrev status_line : Response → Text
status_line r = text "HTTP/1.1 " ++ (decimal r.status ++ (text " " ++ reason_of r.status))

abbrev length_line : Response → Text
length_line r = text "Content-Length: " ++ decimal (length r.body)

abbrev type_lines : Option Text → List Text
type_lines none = []
type_lines (some content_type) = (text "Content-Type: " ++ content_type) ∷ []

abbrev other_lines : Response → List Text
other_lines r = length_line r ∷ text "Connection: close" ∷ type_lines r.content_type

abbrev head_text : Response → Text
head_text r = joined (status_line r) (other_lines r)

any-append :
    (p : ℕ → Bool) (s t : Text) → any p s ≡ false → any p t ≡ false → any p (s ++ t) ≡ false
any-append p [] t h k = k
any-append p (c ∷ s) t h k = ground (arith, any-append p s t)

take-length : (s t : Bytes) → take (length s) (s ++ t) ≡ s
take-length [] t = refl
take-length (c ∷ s) t = ap (λ u. c ∷ u) (take-length s t)

-- The content types of the handlers
abbrev pub HasKnownType : Response → Type 0
HasKnownType r = (r.content_type ≡ none) ⊎ (r.content_type ≡ some (text "application/json"))

reason_of-IsPlain : (status : ℕ) → IsPlain (reason_of status)
unfolding reason_of text
reason_of-IsPlain status = ground arith

abbrev is_wide : ℕ → Bool
is_wide c = leb 128 c

abbrev pub IsAscii : Text → Type 0
IsAscii s = any is_wide s ≡ false

reason_of-IsAscii : (status : ℕ) → IsAscii (reason_of status)
unfolding reason_of text
reason_of-IsAscii status = ground arith

decimal-IsAscii : (n : ℕ) → IsAscii (decimal n)
decimal-IsAscii n = decimal-any is_wide (λ d lt. ground arith) n

decimal-IsPlain : (n : ℕ) → IsPlain (decimal n)
decimal-IsPlain n = decimal-any is_break (λ d lt. ground arith) n

close-joined :
    (t : Option Text)
    → text "Connection: close" ++ (crlf ++ (type_header t ++ crlf))
      ≡ joined (text "Connection: close") (type_lines t) ++ (crlf ++ crlf)
unfolding text
close-joined none = refl
close-joined (some t) = simp append_assoc

module _ (r : Response) (known : HasKnownType r) where
  head-joined : head_of r ≡ head_text r ++ (crlf ++ crlf)
  unfolding head_of
  head-joined = simp (append_assoc, close-joined r.content_type)

  status_line-IsPlain : IsPlain (status_line r)
  unfolding text
  status_line-IsPlain =
      any-append is_break (decimal r.status) (text " " ++ reason_of r.status)
        (decimal-IsPlain r.status) (reason_of-IsPlain r.status)

  other_lines-AllLines : AllLines (other_lines r)
  unfolding text
  other_lines-AllLines =
      let types : AllLines (type_lines r.content_type) = elim known [
        | inl q ↦ rw q tt
        | inr q ↦ rw q (refl, refl, tt)
      ] in
      (refl, decimal-IsPlain (length r.body), (refl, refl, types))

  head_text-IsAscii : IsAscii (head_text r)
  unfolding text
  head_text-IsAscii =
      any-append is_wide (status_line r) _
        (any-append is_wide (decimal r.status) (text " " ++ reason_of r.status)
          (decimal-IsAscii r.status) (reason_of-IsAscii r.status))
        (any-append is_wide (decimal (length r.body)) _ (decimal-IsAscii (length r.body))
          (elim known [ inl q ↦ rw q refl | inr q ↦ rw q refl ]))

  split : head_of r ++ r.body ≡ head_text r ++ (crlf ++ (crlf ++ r.body))
  split = ap (λ t. t ++ r.body) head-joined ∙ append_assoc (head_text r) (crlf ++ crlf) r.body

  size : length (head_of r) ≡ length (head_text r) + 4
  size = ap length head-joined ∙ length-append (head_text r) (crlf ++ crlf)

  ends : find_header_end (head_of r ++ r.body) ≡ some (length (head_of r))
  unfolding find_header_end
  ends =
      let blank =
        blank_line-joined (status_line r) (other_lines r) r.body status_line-IsPlain
          other_lines-AllLines in
      rw (find_header_end, ap blank_line split ∙ blank) (ap some (sym size))

  taken : take (length (head_of r) - 4) (head_of r ++ r.body) ≡ head_text r
  taken =
      let back : length (head_of r) - 4 ≡ length (head_text r) = omega (arith, size) in
      ap (λ n. take n (head_of r ++ r.body)) back
      ∙ ap (λ t. take (length (head_text r)) t) split
      ∙ take-length (head_text r) (crlf ++ (crlf ++ r.body))

  counted : length r.body < u64_end → first_length (other_lines r) ≡ some (length r.body)
  unfolding first_length
  counted small = rw (first_length, content_length-decimal (length r.body) small) refl

  reads :
      length r.body < u64_end → first_length (drop 1 (lines (head_text r))) ≡ some (length r.body)
  unfolding lines text
  reads small =
      let line : Text = drop 1 (status_line r) in
      ap (λ o. first_length (drop 1 (all_lines o)))
        (lines_of-joined b'H' line (other_lines r) status_line-IsPlain other_lines-AllLines)
      ∙ counted small

  -- The head of a response reads as its own length and the length of the body.
  pub parse_headers-head_of :
      (from_utf8 : Bytes → Result (Unit {0}))
      → ((head : Text) → IsAscii head → from_utf8 head ≡ ok tt)
      → length r.body < u64_end
      → parse_headers from_utf8 (head_of r ++ r.body)
        ≡ ok (some (length (head_of r), length r.body))
  unfolding parse_headers
  parse_headers-head_of from_utf8 accepts small =
      rw (parse_headers, ends, taken, accepts (head_text r) head_text-IsAscii, taken, reads small)
        refl
