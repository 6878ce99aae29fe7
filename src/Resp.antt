-- ===== src/Resp.antt =====
-- The RESP codec of the Redis probe: `encodeCommand` and `parseResp`
-- (apps/api/src/lib/redis-client.ts). Bytes are natural numbers below 256. A command's argument is
-- its bytes. `utf8` stands for the runtime's codec: the bytes of the string decoded from some bytes.
-- A length line is read as ASCII, and numbers are exact, not doubles. Recursion is bounded by fuel,
-- and the outcome `deep` says that it ran out.
pub mod Grammar
pub mod Lines
pub mod Parsing
pub mod Commands
pub mod Prefix
pub mod Client
pub mod Streaming
pub mod Stuck
mod Tests
use revenant_cloud.Base.{
  ℤ, pos, negsuc, sub_ℕ, add_ℕ, ℕ, zero, suc, ◌+◌, ◌-◌, String, Bool, true, false, ◌&&◌, ◌||◌,
  Option, none, some, List, [], ◌∷◌, ◌++◌, ltb, leb, ◌==◌, if◌then◌else◌, length, take, drop,
  decimal, is_digit, value_from,
}
use revenant_cloud.Duration.{span}

mutual
  -- `RespValue`. The integer is `none` where it is NaN.
  pub data RespValue : Type 0 where
    bulk : List ℕ → RespValue
    number : Option ℤ → RespValue
    null : RespValue
    error : List ℕ → RespValue
    array : Values → RespValue

  pub data Values : Type 0 where
    nil : Values
    cons : RespValue → Values → Values

abbrev pub crlf : List ℕ
crlf = 13 ∷ 10 ∷ []

unfoldable pub encode_args : List (List ℕ) → List ℕ
encode_args [] = []
encode_args (a ∷ rest) = b'$' ∷ (decimal (length a) ++ (crlf ++ (a ++ (crlf ++ encode_args rest))))

unfoldable pub encode_command : List (List ℕ) → List ℕ
unfolding encode_args
encode_command args = b'*' ∷ (decimal (length args) ++ (crlf ++ encode_args args))

-- `parseInt(line, 10)`; `none` is NaN.
abbrev pub skip_spaces : List ℕ → List ℕ
skip_spaces [] = []
skip_spaces (c ∷ cs) =
    let rest = skip_spaces cs in if (leb 9 c && leb c 13) || c == 32 then rest else c ∷ cs

abbrev pub unsigned : List ℕ × List ℕ → Option ℕ
unsigned ([], rest) = none
unsigned (d ∷ ds, rest) = some (value_from 0 (d ∷ ds))

abbrev pub negated : Option ℕ → Option ℤ
negated none = none
negated (some zero) = some (pos 0)
negated (some (suc n)) = some (negsuc n)

abbrev pub positive : Option ℕ → Option ℤ
positive none = none
positive (some n) = some (pos n)

abbrev pub signed : List ℕ → Option ℤ
signed [] = none
signed (c ∷ cs) =
    if c == b'-'
    then negated (unsigned (span is_digit cs))
    else if c == b'+'
    then positive (unsigned (span is_digit cs))
    else positive (unsigned (span is_digit (c ∷ cs)))

unfoldable pub parse_int : List ℕ → Option ℤ
parse_int line = signed (skip_spaces line)

abbrev pub next : Option ℕ → Option ℕ
next none = none
next (some k) = some (suc k)

-- `indexOf("\r\n")`
unfoldable pub find_crlf : List ℕ → Option ℕ
find_crlf [] = none
find_crlf (c ∷ []) = none
find_crlf (c ∷ d ∷ cs) =
    let later = next (find_crlf (d ∷ cs)) in if c == 13 && d == 10 then some 0 else later

-- `subarray(from, to)` between positions that are not negative.
abbrev pub slice : List ℕ → ℕ → ℕ → List ℕ
slice buf from to = take (to - from) (drop from buf)

-- `subarray(from, to)` where `to` may be negative, which counts from the end.
abbrev pub slice_to : List ℕ → ℕ → ℤ → List ℕ
slice_to buf from (pos to) = slice buf from to
slice_to buf from (negsuc n) = slice buf from (length buf - suc n)

-- A position in the buffer: a malformed length can lead before its start, or to NaN.
pub data Cursor : Type 0 where
  at : ℕ → Cursor
  before : ℕ → Cursor
  nowhere : Cursor

abbrev pub to_cursor : ℤ → Cursor
to_cursor (pos n) = at n
to_cursor (negsuc n) = before (suc n)

-- `cursor += consumed`
abbrev pub advance : Cursor → Option ℤ → Cursor
advance c none = nowhere
advance nowhere (some z) = nowhere
advance (at n) (some z) = to_cursor (add_ℕ n z)
advance (before k) (some (pos n)) = to_cursor (sub_ℕ n k)
advance (before k) (some (negsuc n)) = before (k + suc n)

-- `null` is `incomplete`; `consumed` is `none` where it is NaN.
pub data Outcome : Type 0 where
  deep : Outcome
  incomplete : Outcome
  done : RespValue → Option ℤ → Outcome

-- The loop over an array's elements: its values, and the cursor behind them.
pub data Items : Type 0 where
  deep : Items
  incomplete : Items
  done : Values → Cursor → Items

pub items : (Cursor → Outcome) → ℕ → Cursor → Items
items rec zero c = Items.done nil c
items rec (suc n) c = elim (rec c) [
  | Outcome.deep ↦ Items.deep
  | Outcome.incomplete ↦ Items.incomplete
  | Outcome.done v consumed ↦ elim (items rec n (advance c consumed)) [
    | Items.deep ↦ Items.deep
    | Items.incomplete ↦ Items.incomplete
    | Items.done vs c' ↦ Items.done (cons v vs) c'
  ]
]

-- `cursor - offset`, at an offset that is not negative.
abbrev pub distance : ℕ → Cursor → Option ℤ
distance o (at n) = some (sub_ℕ n o)
distance o (before k) = some (negsuc (k + o - 1))
distance o nowhere = none

abbrev pub array_of : ℕ → Items → Outcome
array_of o Items.deep = Outcome.deep
array_of o Items.incomplete = Outcome.incomplete
array_of o (Items.done vs c) = Outcome.done (array vs) (distance o c)

-- The branch of a bulk string. `head` is what the header line takes, so the payload starts at
-- `o + head`; a length below -1 leads back, and NaN makes an empty slice.
abbrev pub bulk_of : List ℕ → ℕ → ℕ → Option ℤ → Outcome
bulk_of buf o head none = Outcome.done (bulk []) none
bulk_of buf o head (some (pos len)) =
    if ltb (length buf) (o + head + len + 2)
    then Outcome.incomplete
    else Outcome.done (bulk (slice buf (o + head) (o + head + len))) (some (pos (head + len + 2)))
bulk_of buf o head (some (negsuc zero)) = Outcome.done null (some (pos head))
bulk_of buf o head (some (negsuc (suc n))) =
    Outcome.done (bulk (slice_to buf (o + head) (sub_ℕ (o + head) (suc (suc n)))))
      (some (sub_ℕ (head + 2) (suc (suc n))))

-- How often the loop over an array runs: not at all for a count that is negative or NaN.
abbrev pub rounds : Option ℤ → ℕ
rounds (some (pos n)) = n
rounds _ = 0

-- The array branch: a count of -1 is null.
abbrev pub array_branch : (Cursor → Outcome) → ℕ → ℕ → Option ℤ → Outcome
array_branch rec o head (some (negsuc zero)) = Outcome.done null (some (pos head))
array_branch rec o head count = array_of o (items rec (rounds count) (at (o + head)))

module _ (utf8 : List ℕ → List ℕ) where
  -- The `switch` on the first byte, once the header line is known.
  pub dispatch : (Cursor → Outcome) → List ℕ → ℕ → ℕ → ℕ → List ℕ → Outcome
  dispatch rec buf o type head line =
      if type == 0x2b
      then Outcome.done (bulk (utf8 line)) (some (pos head))
      else if type == 0x2d
      then Outcome.done (error (utf8 line)) (some (pos head))
      else if type == 0x3a
      then Outcome.done (number (parse_int line)) (some (pos head))
      else if type == 0x24
      then bulk_of buf o head (parse_int line)
      else if type == 0x2a
      then array_branch rec o head (parse_int line)
      else Outcome.done (bulk (utf8 line)) (some (pos head))

  -- At a position that is not in the buffer the type is `undefined`, and the line begins at 0.
  abbrev pub stray : List ℕ → ℕ → Option ℕ → Outcome
  stray buf from none = elim (find_crlf (drop from buf)) [
    | none ↦ Outcome.incomplete
    | some k ↦ Outcome.done (bulk (utf8 (slice buf 0 (from + k)))) none
  ]
  stray buf from (some back) = elim (find_crlf (drop from buf)) [
    | none ↦ Outcome.incomplete
    | some k ↦
        Outcome.done (bulk (utf8 (slice buf 0 (from + k)))) (some (pos (from + k + 2 + back)))
  ]

  -- The reply at an offset, whose bytes from there on are `s`.
  abbrev pub reply_at : (Cursor → Outcome) → List ℕ → ℕ → List ℕ → Outcome
  reply_at rec buf o [] = Outcome.incomplete
  reply_at rec buf o (type ∷ rest) = elim (find_crlf (type ∷ rest)) [
    | none ↦ Outcome.incomplete
    | some k ↦ dispatch rec buf o type (k + 2) (take (k - 1) rest)
  ]

  pub parse : ℕ → List ℕ → Cursor → Outcome
  unfolding dispatch items parse_int find_crlf
  parse zero buf c = Outcome.deep
  parse (suc f) buf (at o) = reply_at (parse f buf) buf o (drop o buf)
  parse (suc f) buf (before k) = stray buf (length buf - k) (some k)
  parse (suc f) buf nowhere = stray buf 0 none

  -- `parseResp(buf, offset)`, with the buffer's length as fuel.
  pub parse_resp : List ℕ → ℕ → Outcome
  unfolding parse
  parse_resp buf offset = parse (suc (length buf)) buf (at offset)
