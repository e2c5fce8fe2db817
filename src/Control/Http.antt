-- ===== src/Control/Http.antt =====
-- The HTTP of src/control.rs: how a request is read from its bytes, and how a response is written.
pub mod Head
pub mod Joined
pub mod Lengths
pub mod Framed
pub mod Rendered
use lazyd.Base.{
  ℕ, zero, suc, ◌+◌, ◌-◌, ◌*◌, Text, Bytes, text, text_eq, decimal, Bool, true, false, ◌&&◌, ◌||◌,
  not, Option, none, some, List, [], ◌∷◌, ◌++◌, length, take, drop, leb, ltb, ◌==◌, if◌then◌else◌,
  u64_end, wrapping_add,
}
use lazyd.Errors.{Error, bad_request, Result, ok, err, status_code, message}
use lazyd.Control.{Request, Response, ControlJson, json, is_space}

-- `buf.windows(4).position(|w| w == b"\r\n\r\n")`
unfoldable pub blank_line : Bytes → Option ℕ
blank_line [] = none
blank_line (b ∷ bytes) =
    let rest = blank_line bytes in
    if text_eq (take 4 (b ∷ bytes)) (13 ∷ 10 ∷ 13 ∷ 10 ∷ [])
    then some 0
    else elim rest [ none ↦ none | some n ↦ some (suc n) ]

unfoldable pub find_header_end : Bytes → Option ℕ
find_header_end buf = elim (blank_line buf) [ none ↦ none | some pos ↦ some (pos + 4) ]

-- `trim_start` and `trim`, on ASCII
unfoldable pub trim_start : Text → Text
trim_start [] = []
trim_start (c ∷ s) = let rest = trim_start s in if is_space c then rest else c ∷ s

unfoldable pub reverse_onto : Text → Text → Text
reverse_onto [] out = out
reverse_onto (c ∷ s) out = reverse_onto s (c ∷ out)

unfoldable pub trim : Text → Text
trim s = reverse_onto (trim_start (reverse_onto (trim_start s) [])) []

abbrev starts_line_feed : Text → Bool
starts_line_feed [] = false
starts_line_feed (c ∷ s) = c == 10

abbrev pub all_lines : Option (Text × List Text) → List Text
all_lines none = []
all_lines (some (line, rest)) = line ∷ rest

abbrev grow : ℕ → Option (Text × List Text) → Option (Text × List Text)
grow c none = some (c ∷ [], [])
grow c (some (line, rest)) = some (c ∷ line, rest)

-- The first line and the others; nothing for no text. A line ends at a line feed, with the carriage
-- return before it.
unfoldable pub lines_of : Text → Option (Text × List Text)
lines_of [] = none
lines_of (c ∷ s) =
    let rest = lines_of s in
    if c == 10
    then some ([], all_lines rest)
    else if c == 13 && starts_line_feed s
    then rest
    else grow c rest

-- `str::lines`
unfoldable pub lines : Text → List Text
lines s = all_lines (lines_of s)

-- `str::split_once`
unfoldable pub split_once : ℕ → Text → Option (Text × Text)
split_once sep [] = none
split_once sep (c ∷ s) =
    let rest = split_once sep s in
    if c == sep then some ([], s) else elim rest [ none ↦ none | some (a, b) ↦ some (c ∷ a, b) ]

abbrev pub to_lower : ℕ → ℕ
to_lower c = if leb b'A' c && leb c b'Z' then c + 32 else c

-- `eq_ignore_ascii_case`
unfoldable pub eq_ignore_case : Text → Text → Bool
eq_ignore_case [] [] = true
eq_ignore_case (a ∷ s) (b ∷ t) = to_lower a == to_lower b && eq_ignore_case s t
eq_ignore_case _ _ = false

-- `str::parse::<usize>`: digits behind at most one plus; the number has to fit.
unfoldable pub digits_value : Text → ℕ → Option ℕ
digits_value [] n = if ltb n u64_end then some n else none
digits_value (c ∷ s) n =
    let rest = digits_value s (n * 10 + (c - b'0')) in
    if leb b'0' c && (leb c b'9' && ltb n u64_end) then rest else none

unfoldable pub parse_usize : Text → Option ℕ
parse_usize [] = none
parse_usize (c ∷ []) = digits_value (c ∷ []) 0
parse_usize (c ∷ d ∷ s) = if c == b'+' then digits_value (d ∷ s) 0 else digits_value (c ∷ d ∷ s) 0

-- The closure of `find_map`
unfoldable pub content_length : Text → Option ℕ
content_length line = elim (split_once b':' line) [
  | none ↦ none
  | some (name, value) ↦
      if eq_ignore_case name (text "content-length") then parse_usize (trim value) else none
]

unfoldable pub first_length : List Text → Option ℕ
first_length [] = none
first_length (line ∷ rest) =
    let later = first_length rest in elim (content_length line) [ some n ↦ some n | none ↦ later ]

abbrev pub or_zero : Option ℕ → ℕ
or_zero none = 0
or_zero (some n) = n

-- `std::str::from_utf8` is the standard library's; its error is displayed.
unfoldable pub parse_headers : (Bytes → Result (Unit {0})) → Bytes → Result (Option (ℕ × ℕ))
parse_headers from_utf8 buf = elim (find_header_end buf) [
  | none ↦ ok none
  | some header_end ↦ elim (from_utf8 (take (header_end - 4) buf)) [
    | err e ↦ err (bad_request (message e))
    | ok _ ↦
        ok (some (header_end, or_zero (first_length (drop 1 (lines (take (header_end - 4) buf))))))
  ]
]

-- `split_whitespace`, up to the first two words
unfoldable pub word : Text → Text × Text
word [] = ([], [])
word (c ∷ s) = let (a, b) = word s in if is_space c then ([], c ∷ s) else (c ∷ a, b)

abbrev pub nonempty : Text → Error → Result Text
nonempty [] e = err e
nonempty (c ∷ s) e = ok (c ∷ s)

unfoldable pub request_line : Text → Result (Text × Text)
request_line line =
    let (method, rest) = word (trim_start line) in
    let (path, _) = word (trim_start rest) in
    elim (nonempty method (bad_request (text "missing method"))) [
      | err e ↦ err e
      | ok m ↦ elim (nonempty path (bad_request (text "missing path"))) [
        | err e ↦ err e
        | ok p ↦ ok (m, p)
      ]
    ]

-- The part of `read_request` behind the loop that reads
unfoldable pub parse_request : (Bytes → Result (Unit {0})) → Bytes → Result Request
parse_request from_utf8 buf = elim (find_header_end buf) [
  | none ↦ err (bad_request (text "malformed HTTP request"))
  | some header_end ↦ elim (from_utf8 (take (header_end - 4) buf)) [
    | err e ↦ err (bad_request (message e))
    | ok _ ↦ elim (lines (take (header_end - 4) buf)) [
      | [] ↦ err (bad_request (text "missing request line"))
      | line ∷ _ ↦ elim (request_line line) [
        | err e ↦ err e
        | ok (method, path) ↦
            ok (record { method = method; path = path; body = drop header_end buf })
      ]
    ]
  ]
]

-- What the stream gives for each read: an error, or bytes, where none at all are the end.
abbrev pub Reads : Type 0
Reads = List (Result Bytes)

-- The inner loop of `read_request`: until `total` bytes are there, or the stream ends. The reads
-- that are left run out as the stream does.
unfoldable pub read_body : ℕ → Bytes → Reads → Result Bytes
read_body total buf [] = ok buf
read_body total buf (r ∷ reads) = if leb total (length buf) then ok buf else elim r [
  | err e ↦ err e
  | ok bytes ↦
      let rest = read_body total (buf ++ bytes) reads in if length bytes == 0 then ok buf else rest
]

-- The outer loop
unfoldable pub read_head : (Bytes → Result (Unit {0})) → Bytes → Reads → Result Bytes
read_head from_utf8 buf [] = ok buf
read_head from_utf8 buf (r ∷ reads) = elim r [
  | err e ↦ err e
  | ok bytes ↦
      let rest = read_head from_utf8 (buf ++ bytes) reads in
      if length bytes == 0 then ok buf else elim (parse_headers from_utf8 (buf ++ bytes)) [
        | err e ↦ err e
        | ok (some (headers_end, content_len)) ↦
            read_body (wrapping_add headers_end content_len) (buf ++ bytes) reads
        | ok none ↦
            if ltb (1024 * 1024) (length (buf ++ bytes))
            then err (bad_request (text "request too large"))
            else rest
      ]
]

unfoldable pub read_request : (Bytes → Result (Unit {0})) → Reads → Result Request
read_request from_utf8 reads = elim (read_head from_utf8 [] reads) [
  | err e ↦ err e
  | ok buf ↦ parse_request from_utf8 buf
]

unfoldable pub reason_of : ℕ → Text
reason_of status =
    if status == 200
    then text "OK"
    else if status == 204
    then text "No Content"
    else if status == 400
    then text "Bad Request"
    else if status == 404
    then text "Not Found"
    else if status == 409
    then text "Conflict"
    else text "Internal Server Error"

abbrev pub crlf : Text
crlf = 13 ∷ 10 ∷ []

abbrev pub type_header : Option Text → Text
type_header none = []
type_header (some content_type) = text "Content-Type: " ++ (content_type ++ crlf)

unfoldable pub head_of : Response → Text
head_of r =
    text "HTTP/1.1 "
    ++ (decimal r.status
        ++ (text " "
            ++ (reason_of r.status
                ++ (crlf
                    ++ (text "Content-Length: "
                        ++ (decimal (length r.body)
                            ++ (crlf
                                ++ (text "Connection: close"
                                    ++ (crlf ++ (type_header r.content_type ++ crlf))))))))))

unfoldable pub response_of : ControlJson → Result Response → Result Response
response_of codec (ok response) = ok response
response_of codec (err e) = elim (codec.error_body (message e)) [
  | err f ↦ err f
  | ok body ↦ ok (json (status_code e) body)
]

unfoldable pub render_response : ControlJson → Result Response → Result Bytes
render_response codec response = elim (response_of codec response) [
  | err e ↦ err e
  | ok r ↦ ok (head_of r ++ r.body)
]
