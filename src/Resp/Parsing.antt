-- ===== src/Resp/Parsing.antt =====
-- The parser reads a whole reply back, whatever follows it.
use native.Mathlib.Nat.{add_assoc, add-zero}
use mathlib.Core.List.{append_assoc}
use revenant_cloud.Base.{
  ℤ, pos, negsuc, sub_ℕ, ℕ, zero, suc, ◌+◌, ◌-◌, ◌≤◌, ◌<◌, ◌≡◌, refl, sym, ap, ◌∙◌, false, some,
  List, ◌∷◌, ◌++◌, ltb, arith, length, length-append, length-drop, drop, take_append, drop_append,
  drop-add, decimal,
}
use revenant_cloud.Resp.{
  RespValue, bulk, number, null, error, array, Values, crlf, find_crlf, slice, Cursor, at, Outcome,
  Items, items, bulk_of, array_of, array_branch, dispatch, reply_at, parse, distance,
}
use revenant_cloud.Resp.Lines.{
  find_crlf-append, parse_int-signed_text, IsLine-decimal, IsLine-signed_text,
}
use revenant_cloud.Resp.Grammar.{
  Reply, Replies, size, line, signed_text, encode, encode_all, IsLine, IsWellFormed, AreWellFormed,
  depth, depth_all, value, values, simple, failure, integer, string, no_string, no_array, sequence,
}

module _ (utf8 : List ℕ → List ℕ) where
  -- A header line is found, and its branch is taken.
  pub reply_at-line :
      (rec : Cursor → Outcome) (buf : List ℕ) (o type : ℕ) (text rest : List ℕ)
      → IsLine (type ∷ text)
      → reply_at utf8 rec buf o (line type text ++ rest)
        ≡ dispatch utf8 rec buf o type (length text + 3) text
  reply_at-line rec buf o type text rest h =
      let found : find_crlf ((type ∷ text) ++ (crlf ++ rest)) ≡ some (suc (length text)) =
        find_crlf-append (type ∷ text) rest h in
      let before_end : suc (length text) - 1 ≡ length text = omega arith in
      let taken : suc (length text) + 2 ≡ length text + 3 = omega arith in
      rw (append_assoc text crlf rest, found, reply_at)
        (rw (before_end, taken, append_assoc text crlf rest, take_append text (crlf ++ rest)))

  -- The header of a reply at an offset.
  pub parse-line :
      (f : ℕ) (buf : List ℕ) (o type : ℕ) (text rest : List ℕ)
      → 0 < f
      → IsLine (type ∷ text)
      → drop o buf ≡ line type text ++ rest
      → parse utf8 f buf (at o)
        ≡ dispatch utf8 (parse utf8 (f - 1) buf) buf o type (length text + 3) text
  unfolding parse
  parse-line zero buf o type text rest p h e = absurd (omega arith)
  parse-line (suc f) buf o type text rest p h e =
      let inner : suc f - 1 ≡ f = omega arith in
      rw inner (
        ap (reply_at utf8 (parse utf8 f buf) buf o) e
        ∙ reply_at-line (parse utf8 f buf) buf o type text rest h)

-- A test that fails.
ltb-false : (a b : ℕ) → b ≤ a → ltb a b ≡ false
ltb-false a b h = ground arith

-- A bulk string that is there in full.
pub bulk_of-done :
    (buf : List ℕ) (o head : ℕ) (bytes rest : List ℕ)
    → drop (o + head) buf ≡ bytes ++ (crlf ++ rest)
    → bulk_of buf o head (some (pos (length bytes)))
      ≡ Outcome.done (bulk bytes) (some (pos (head + length bytes + 2)))
bulk_of-done buf o head bytes rest e =
    let fits : o + head + length bytes + 2 ≤ length buf =
      omega (arith, length-drop (o + head) buf, ap length e, length-append bytes (crlf ++ rest)) in
    let count : o + head + length bytes - (o + head) ≡ length bytes = omega arith in
    let payload : slice buf (o + head) (o + head + length bytes) ≡ bytes =
      rw (count, e) (take_append bytes (crlf ++ rest)) in
    rw (ltb-false (length buf) (o + head + length bytes + 2) fits, payload)

length-line : (type : ℕ) (text : List ℕ) → length (line type text) ≡ length text + 3
length-line type text = omega (arith, length-append text crlf)

-- The bytes behind a header line.
pub behind-line :
    (buf : List ℕ) (o type : ℕ) (text rest : List ℕ)
    → drop o buf ≡ line type text ++ rest
    → drop (o + (length text + 3)) buf ≡ rest
behind-line buf o type text rest e =
    let step : drop (o + length (line type text)) buf ≡ rest =
      drop-add o (length (line type text)) buf
      ∙ (ap (drop (length (line type text))) e ∙ drop_append (line type text) rest) in
    rw (length-line type text) at step

sub_ℕ-add : (o n : ℕ) → sub_ℕ (o + n) o ≡ pos n
sub_ℕ-add o n = ground arith

module _ (utf8 : List ℕ → List ℕ) where
  -- A reply that is only a header line takes the line's length.
  parse-simple :
      (f : ℕ) (buf : List ℕ) (o : ℕ) (text rest : List ℕ)
      → 0 < f
      → IsLine text
      → drop o buf ≡ line b'+' text ++ rest
      → parse utf8 f buf (at o)
        ≡ Outcome.done (bulk (utf8 text)) (some (pos (length (line b'+' text))))
  unfolding dispatch
  parse-simple f buf o text rest p h e =
      rw (length-line b'+' text) (parse-line utf8 f buf o b'+' text rest p (refl, h) e)

  parse-failure :
      (f : ℕ) (buf : List ℕ) (o : ℕ) (text rest : List ℕ)
      → 0 < f
      → IsLine text
      → drop o buf ≡ line b'-' text ++ rest
      → parse utf8 f buf (at o)
        ≡ Outcome.done (error (utf8 text)) (some (pos (length (line b'-' text))))
  unfolding dispatch
  parse-failure f buf o text rest p h e =
      rw (length-line b'-' text) (parse-line utf8 f buf o b'-' text rest p (refl, h) e)

  parse-integer :
      (f : ℕ) (buf : List ℕ) (o : ℕ) (z : ℤ) (rest : List ℕ)
      → 0 < f
      → drop o buf ≡ line b':' (signed_text z) ++ rest
      → parse utf8 f buf (at o)
        ≡ Outcome.done (number (some z)) (some (pos (length (line b':' (signed_text z)))))
  unfolding dispatch
  parse-integer f buf o z rest p e = rw (length-line b':' (signed_text z)) (
      parse-line utf8 f buf o b':' (signed_text z) rest p (refl, IsLine-signed_text z) e
      ∙ ap (λ n. Outcome.done (number n) (some (pos (length (signed_text z) + 3))))
          (parse_int-signed_text z))

  parse-string :
      (f : ℕ) (buf : List ℕ) (o : ℕ) (bytes rest : List ℕ)
      → 0 < f
      → drop o buf ≡ line b'$' (decimal (length bytes)) ++ (bytes ++ crlf) ++ rest
      → parse utf8 f buf (at o)
        ≡ Outcome.done
            (bulk bytes)
            (some (pos (length (line b'$' (decimal (length bytes)) ++ (bytes ++ crlf)))))
  unfolding dispatch
  parse-string f buf o bytes rest p e =
      let digits = decimal (length bytes) in
      let header : drop o buf ≡ line b'$' digits ++ (bytes ++ (crlf ++ rest)) =
        e
        ∙ (append_assoc (line b'$' digits) (bytes ++ crlf) rest
            ∙ ap (λ t. line b'$' digits ++ t) (append_assoc bytes crlf rest)) in
      let total : length (line b'$' digits ++ (bytes ++ crlf))
          ≡ length digits + 3 + length bytes + 2 =
        omega (
          arith,
          length-append (line b'$' digits) (bytes ++ crlf),
          length-line b'$' digits,
          length-append bytes crlf,
        ) in
      parse-line utf8 f buf o b'$' digits (bytes ++ (crlf ++ rest)) p
        (refl, IsLine-decimal (length bytes)) header
      ∙ (ap (bulk_of buf o (length digits + 3)) (parse_int-signed_text (pos (length bytes)))
          ∙ (bulk_of-done buf o (length digits + 3) bytes rest
                (behind-line buf o b'$' digits (bytes ++ (crlf ++ rest)) header)
              ∙ ap (λ n. Outcome.done (bulk bytes) (some (pos n))) (sym total)))

  -- A header of a null reply.
  parse-null :
      (f : ℕ) (buf : List ℕ) (o : ℕ) (rest : List ℕ)
      → 0 < f
      → drop o buf ≡ line b'$' (signed_text (negsuc 0)) ++ rest
      → parse utf8 f buf (at o)
        ≡ Outcome.done null (some (pos (length (line b'$' (signed_text (negsuc 0))))))
  unfolding dispatch
  parse-null f buf o rest p e =
      parse-line utf8 f buf o b'$' (signed_text (negsuc 0)) rest p
        (refl, IsLine-signed_text (negsuc 0)) e
      ∙ (ap (bulk_of buf o (length (signed_text (negsuc 0)) + 3)) (parse_int-signed_text (negsuc 0))
          ∙ ap (λ n. Outcome.done null (some (pos n)))
              (sym (length-line b'$' (signed_text (negsuc 0)))))

  parse-null_array :
      (f : ℕ) (buf : List ℕ) (o : ℕ) (rest : List ℕ)
      → 0 < f
      → drop o buf ≡ line b'*' (signed_text (negsuc 0)) ++ rest
      → parse utf8 f buf (at o)
        ≡ Outcome.done null (some (pos (length (line b'*' (signed_text (negsuc 0))))))
  unfolding dispatch
  parse-null_array f buf o rest p e =
      let text = signed_text (negsuc 0) in
      parse-line utf8 f buf o b'*' text rest p (refl, IsLine-signed_text (negsuc 0)) e
      ∙ (ap (array_branch (parse utf8 (f - 1) buf) o (length text + 3))
            (parse_int-signed_text (negsuc 0))
          ∙ ap (λ n. Outcome.done null (some (pos n))) (sym (length-line b'*' text)))

  -- An array whose elements are there in full.
  parse-sequence :
      (f : ℕ) (buf : List ℕ) (o n m : ℕ) (vs : Values) (rest : List ℕ)
      → 0 < f
      → drop o buf ≡ line b'*' (decimal n) ++ rest
      → items (parse utf8 (f - 1) buf) n (at (o + (length (decimal n) + 3)))
        ≡ Items.done vs (at (o + (length (decimal n) + 3) + m))
      → parse utf8 f buf (at o)
        ≡ Outcome.done (array vs) (some (pos (length (line b'*' (decimal n)) + m)))
  unfolding dispatch
  parse-sequence f buf o n m vs rest p e elements =
      let head = length (decimal n) + 3 in
      let moved : distance o (at (o + head + m)) ≡ some (pos (length (line b'*' (decimal n)) + m)) =
        ap some (
          ap (λ k. sub_ℕ k o) (add_assoc o head m)
          ∙ (sub_ℕ-add o (head + m)
              ∙ ap (λ k. pos (k + m)) (sym (length-line b'*' (decimal n))))) in
      parse-line utf8 f buf o b'*' (decimal n) rest p (refl, IsLine-decimal n) e
      ∙ (ap (array_branch (parse utf8 (f - 1) buf) o head) (parse_int-signed_text (pos n))
          ∙ (ap (array_of o) elements ∙ ap (Outcome.done (array vs)) moved))

  -- One more element at the front.
  items-cons :
      (rec : Cursor → Outcome) (n o m k : ℕ) (v : RespValue) (vs : Values)
      → rec (at o) ≡ Outcome.done v (some (pos m))
      → items rec n (at (o + m)) ≡ Items.done vs (at (o + m + k))
      → items rec (suc n) (at o) ≡ Items.done (Values.cons v vs) (at (o + (m + k)))
  unfolding items
  items-cons rec n o m k v vs first others =
      rw (first, items)
        (rw (others, items) (ap (λ j. Items.done (Values.cons v vs) (at j)) (add_assoc o m k)))

  mutual
    unfolding encode items

    pub parse-encode_rec :
        (r : Reply) (f : ℕ) (buf : List ℕ) (o : ℕ) (rest : List ℕ)
        → depth r < f
        → IsWellFormed r
        → drop o buf ≡ encode r ++ rest
        → parse utf8 f buf (at o) ≡ Outcome.done (value utf8 r) (some (pos (length (encode r))))
    parse-encode_rec (simple text) f buf o rest d w e = parse-simple f buf o text rest d w e
    parse-encode_rec (failure text) f buf o rest d w e = parse-failure f buf o text rest d w e
    parse-encode_rec (integer z) f buf o rest d w e = parse-integer f buf o z rest d e
    parse-encode_rec (string bytes) f buf o rest d w e = parse-string f buf o bytes rest d e
    parse-encode_rec no_string f buf o rest d w e = parse-null f buf o rest d e
    parse-encode_rec no_array f buf o rest d w e = parse-null_array f buf o rest d e
    parse-encode_rec (sequence rs) f buf o rest d w e =
        let text = decimal (size rs) in
        let header : drop o buf ≡ line b'*' text ++ (encode_all rs ++ rest) =
          e ∙ append_assoc (line b'*' text) (encode_all rs) rest in
        parse-sequence f buf o (size rs) (length (encode_all rs)) (values utf8 rs)
          (encode_all rs ++ rest) (omega arith) header
          (items-encode rs (f - 1) buf (o + (length text + 3)) rest (omega arith) w
            (behind-line buf o b'*' text (encode_all rs ++ rest) header))
        ∙ ap (λ n. Outcome.done (array (values utf8 rs)) (some (pos n)))
            (sym (length-append (line b'*' text) (encode_all rs)))

    items-encode :
        (rs : Replies) (f : ℕ) (buf : List ℕ) (o : ℕ) (rest : List ℕ)
        → depth_all rs < f
        → AreWellFormed rs
        → drop o buf ≡ encode_all rs ++ rest
        → items (parse utf8 f buf) (size rs) (at o)
          ≡ Items.done (values utf8 rs) (at (o + length (encode_all rs)))
    items-encode Replies.nil f buf o rest d w e =
        ap (λ k. Items.done Values.nil (at k)) (sym (add-zero o))
    items-encode (Replies.cons r rs) f buf o rest d w e =
        let whole : drop o buf ≡ encode r ++ (encode_all rs ++ rest) =
          e ∙ append_assoc (encode r) (encode_all rs) rest in
        let later : drop (o + length (encode r)) buf ≡ encode_all rs ++ rest =
          drop-add o (length (encode r)) buf
          ∙ (ap (drop (length (encode r))) whole
              ∙ drop_append (encode r) (encode_all rs ++ rest)) in
        items-cons (parse utf8 f buf) (size rs) o (length (encode r)) (length (encode_all rs))
          (value utf8 r) (values utf8 rs)
          (parse-encode_rec r f buf o (encode_all rs ++ rest) (omega arith) w.0 whole)
          (items-encode rs f buf (o + length (encode r)) rest (omega arith) w.1 later)
        ∙ ap (λ n. Items.done (Values.cons (value utf8 r) (values utf8 rs)) (at (o + n)))
            (sym (length-append (encode r) (encode_all rs)))

  -- A well-formed reply in a buffer parses to its value and is consumed whole, whatever stands before
  -- and behind it, if the fuel exceeds its nesting.
  pub parse-encode :
      (r : Reply) (f : ℕ) (before rest : List ℕ)
      → depth r < f
      → IsWellFormed r
      → parse utf8 f (before ++ (encode r ++ rest)) (at (length before))
        ≡ Outcome.done (value utf8 r) (some (pos (length (encode r))))
  parse-encode r f before rest d w =
      parse-encode_rec r f (before ++ (encode r ++ rest)) (length before) rest d w
        (drop_append before (encode r ++ rest))
