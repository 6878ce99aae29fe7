-- ===== src/Resp/Grammar.antt =====
-- The replies of the RESP protocol and their encoding, as the protocol's description gives them,
-- against which the parser is proved.
use revenant_cloud.Base.{
  ℤ, pos, negsuc, ℕ, suc, ◌≡◌, false, some, List, [], ◌∷◌, ◌++◌, ◌==◌, length, All, decimal, max,
}
use revenant_cloud.Resp.{RespValue, bulk, number, null, error, array, Values, crlf}

mutual
  pub data Reply : Type 0 where
    simple : List ℕ → Reply
    failure : List ℕ → Reply
    integer : ℤ → Reply
    string : List ℕ → Reply
    no_string : Reply
    no_array : Reply
    sequence : Replies → Reply

  pub data Replies : Type 0 where
    nil : Replies
    cons : Reply → Replies → Replies

abbrev pub size : Replies → ℕ
size Replies.nil = 0
size (Replies.cons r rs) = suc (size rs)

-- A header line: its type, its text, and the line end.
abbrev pub line : ℕ → List ℕ → List ℕ
line type text = type ∷ (text ++ crlf)

abbrev pub signed_text : ℤ → List ℕ
signed_text (pos n) = decimal n
signed_text (negsuc n) = b'-' ∷ decimal (suc n)

unfoldable mutual
  pub encode : Reply → List ℕ
  encode (simple text) = line b'+' text
  encode (failure text) = line b'-' text
  encode (integer z) = line b':' (signed_text z)
  encode (string bytes) = line b'$' (decimal (length bytes)) ++ (bytes ++ crlf)
  encode no_string = line b'$' (signed_text (negsuc 0))
  encode no_array = line b'*' (signed_text (negsuc 0))
  encode (sequence rs) = line b'*' (decimal (size rs)) ++ encode_all rs

  pub encode_all : Replies → List ℕ
  encode_all Replies.nil = []
  encode_all (Replies.cons r rs) = encode r ++ encode_all rs

-- A line's text holds no carriage return.
abbrev pub IsLine : List ℕ → Type 0
IsLine = All (λ c. (c == 13) ≡ false)

abbrev mutual
  pub IsWellFormed : Reply → Type 0
  IsWellFormed (simple text) = IsLine text
  IsWellFormed (failure text) = IsLine text
  IsWellFormed (integer z) = Unit
  IsWellFormed (string bytes) = Unit
  IsWellFormed no_string = Unit
  IsWellFormed no_array = Unit
  IsWellFormed (sequence rs) = AreWellFormed rs

  pub AreWellFormed : Replies → Type 0
  AreWellFormed Replies.nil = Unit
  AreWellFormed (Replies.cons r rs) = IsWellFormed r × AreWellFormed rs

-- How deep arrays are nested.
abbrev mutual
  pub depth : Reply → ℕ
  depth (simple text) = 0
  depth (failure text) = 0
  depth (integer z) = 0
  depth (string bytes) = 0
  depth no_string = 0
  depth no_array = 0
  depth (sequence rs) = suc (depth_all rs)

  pub depth_all : Replies → ℕ
  depth_all Replies.nil = 0
  depth_all (Replies.cons r rs) = max (depth r) (depth_all rs)

module _ (utf8 : List ℕ → List ℕ) where
  -- The value that the client is meant to see.
  abbrev mutual
    pub value : Reply → RespValue
    value (simple text) = bulk (utf8 text)
    value (failure text) = error (utf8 text)
    value (integer z) = number (some z)
    value (string bytes) = bulk bytes
    value no_string = null
    value no_array = null
    value (sequence rs) = array (values rs)

    pub values : Replies → Values
    values Replies.nil = Values.nil
    values (Replies.cons r rs) = Values.cons (value r) (values rs)
