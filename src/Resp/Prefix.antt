-- ===== src/Resp/Prefix.antt =====
-- The parser waits for the rest of a reply that is there only in part.
use revenant_cloud.Base.{
  pos, negsuc, ℕ, zero, suc, ◌+◌, ◌-◌, ◌≤◌, ◌<◌, ◌≡◌, refl, sym, ap, ◌∙◌, none, some, List, [], ◌∷◌,
  ◌++◌, ltb, lt→ltb, arith, length, length-append, length-drop, length-take, take, drop,
  drop_append, drop-add, take-le_append, take-append_add, decimal, ◌⊎◌, inl, inr, Bool-cases,
}
use revenant_cloud.Resp.{
  crlf, find_crlf, Cursor, at, Outcome, Items, items, bulk_of, array_of, array_branch, dispatch,
  reply_at, parse,
}
use revenant_cloud.Resp.Lines.{parse_int-signed_text, IsLine-decimal, IsLine-signed_text}
use revenant_cloud.Resp.Grammar.{
  Reply, Replies, size, line, signed_text, encode, encode_all, IsLine, IsWellFormed, AreWellFormed,
  depth, depth_all, simple, failure, integer, string, no_string, no_array, sequence,
}
use revenant_cloud.Resp.Parsing.{parse-line, behind-line, parse-encode_rec}

-- A line that lacks a part of its end has none.
find_crlf-take :
    (text : List ℕ) (n : ℕ)
    → IsLine text
    → n < length text + 2
    → find_crlf (take n (text ++ crlf)) ≡ none
unfolding find_crlf
find_crlf-take [] zero h l = refl
find_crlf-take [] (suc zero) h l = refl
find_crlf-take [] (suc (suc n)) h l = absurd (omega arith)
find_crlf-take (c ∷ cs) zero h l = refl
find_crlf-take (c ∷ cs) (suc zero) h l = refl
find_crlf-take (c ∷ []) (suc (suc zero)) h l = rw h.0
find_crlf-take (c ∷ []) (suc (suc (suc n))) h l = absurd (omega arith)
find_crlf-take (c ∷ d ∷ cs) (suc (suc n)) h l =
    rw (h.0, find_crlf-take (d ∷ cs) (suc n) h.1 (omega arith), find_crlf)

-- Within a text, or behind it.
cut-cases : (n m : ℕ) → (n < m) ⊎ ((k : ℕ) × (n ≡ m + k))
cut-cases n m = elim (Bool-cases (ltb n m)) [
  | inl t ↦ inl (ground arith)
  | inr f ↦ inr (n - m, ground arith)
]

-- Each nesting takes bytes.
mutual
  unfolding encode

  pub depth_le_length : (r : Reply) → depth r ≤ length (encode r)
  depth_le_length (simple text) = omega arith
  depth_le_length (failure text) = omega arith
  depth_le_length (integer z) = omega arith
  depth_le_length (string bytes) = omega arith
  depth_le_length no_string = omega arith
  depth_le_length no_array = omega arith
  depth_le_length (sequence rs) =
      omega (
        arith,
        depth_all_le_length rs,
        length-append (line b'*' (decimal (size rs))) (encode_all rs),
      )

  depth_all_le_length : (rs : Replies) → depth_all rs ≤ length (encode_all rs)
  depth_all_le_length Replies.nil = omega arith
  depth_all_le_length (Replies.cons r rs) =
      omega
        (arith, depth_le_length r, depth_all_le_length rs, length-append (encode r) (encode_all rs))

module _ (utf8 : List ℕ → List ℕ) where
  reply_at-cut :
      (rec : Cursor → Outcome) (buf : List ℕ) (o type : ℕ) (text : List ℕ) (n : ℕ)
      → IsLine (type ∷ text)
      → n < length text + 3
      → reply_at utf8 rec buf o (take n (line type text)) ≡ Outcome.incomplete
  reply_at-cut rec buf o type text zero h l = refl
  reply_at-cut rec buf o type text (suc n) h l =
      let ending : find_crlf (type ∷ take n (text ++ crlf)) ≡ none =
        find_crlf-take (type ∷ text) (suc n) h (omega arith) in
      rw (ending, reply_at) refl

  -- A part of a header line.
  cut_line :
      (f : ℕ) (buf : List ℕ) (o type : ℕ) (text : List ℕ) (n : ℕ)
      → 0 < f
      → IsLine (type ∷ text)
      → n < length text + 3
      → drop o buf ≡ take n (line type text)
      → parse utf8 f buf (at o) ≡ Outcome.incomplete
  unfolding parse
  cut_line zero buf o type text n p h l e = absurd (omega arith)
  cut_line (suc f) buf o type text n p h l e =
      ap (reply_at utf8 (parse utf8 f buf) buf o) e
      ∙ reply_at-cut (parse utf8 f buf) buf o type text n h l

  length-line : (type : ℕ) (text : List ℕ) → length (line type text) ≡ length text + 3
  length-line type text = omega (arith, length-append text crlf)

  -- A part of a header line and what follows it.
  cut_header :
      (f : ℕ) (buf : List ℕ) (o type : ℕ) (text rest : List ℕ) (n : ℕ)
      → 0 < f
      → IsLine (type ∷ text)
      → n < length text + 3
      → drop o buf ≡ take n (line type text ++ rest)
      → parse utf8 f buf (at o) ≡ Outcome.incomplete
  cut_header f buf o type text rest n p h l e =
      cut_line f buf o type text n p h l
        (e ∙ take-le_append n (line type text) rest (omega (arith, length-line type text)))

  -- A header line that is whole, and a part of what follows it.
  whole_header :
      (buf : List ℕ) (o type : ℕ) (text rest : List ℕ) (k : ℕ)
      → drop o buf ≡ take (length text + 3 + k) (line type text ++ rest)
      → drop o buf ≡ line type text ++ take k rest
  whole_header buf o type text rest k e =
      e
      ∙ (ap (λ n. take (n + k) (line type text ++ rest)) (sym (length-line type text))
          ∙ take-append_add (line type text) rest k)

  bulk_of-cut :
      (buf : List ℕ) (o : ℕ) (bytes text : List ℕ) (k : ℕ)
      → drop o buf ≡ line b'$' text ++ take k (bytes ++ crlf)
      → k < length bytes + 2
      → bulk_of buf o (length text + 3) (some (pos (length bytes))) ≡ Outcome.incomplete
  bulk_of-cut buf o bytes text k e l =
      let short : length buf < o + (length text + 3) + length bytes + 2 = omega (
        arith,
        length-drop o buf,
        ap length e,
        length-append (line b'$' text) (take k (bytes ++ crlf)),
        length-line b'$' text,
        length-take k (bytes ++ crlf) (omega (arith, length-append bytes crlf)),
      ) in
      rw (lt→ltb (length buf) (o + (length text + 3) + length bytes + 2) short) refl

  mutual
    unfolding encode items dispatch

    pub cut_reply :
        (r : Reply) (f : ℕ) (buf : List ℕ) (o n : ℕ)
        → n < f
        → IsWellFormed r
        → n < length (encode r)
        → drop o buf ≡ take n (encode r)
        → parse utf8 f buf (at o) ≡ Outcome.incomplete
    cut_reply (simple text) f buf o n d w l e =
        cut_line f buf o b'+' text n (omega arith) (refl, w) (omega (arith, length-line b'+' text))
          e
    cut_reply (failure text) f buf o n d w l e =
        cut_line f buf o b'-' text n (omega arith) (refl, w) (omega (arith, length-line b'-' text))
          e
    cut_reply (integer z) f buf o n d w l e =
        cut_line f buf o b':' (signed_text z) n (omega arith) (refl, IsLine-signed_text z)
          (omega (arith, length-line b':' (signed_text z))) e
    cut_reply no_string f buf o n d w l e =
        cut_line f buf o b'$' (signed_text (negsuc 0)) n (omega arith)
          (refl, IsLine-signed_text (negsuc 0))
          (omega (arith, length-line b'$' (signed_text (negsuc 0)))) e
    cut_reply no_array f buf o n d w l e =
        cut_line f buf o b'*' (signed_text (negsuc 0)) n (omega arith)
          (refl, IsLine-signed_text (negsuc 0))
          (omega (arith, length-line b'*' (signed_text (negsuc 0)))) e
    cut_reply (string bytes) f buf o n d w l e =
        let text = decimal (length bytes) in
        elim (cut-cases n (length text + 3)) [
          | inl early ↦
              cut_header f buf o b'$' text (bytes ++ crlf) n (omega arith)
                (refl, IsLine-decimal (length bytes)) early e
          | inr (k, late) ↦
              let whole =
                whole_header buf o b'$' text (bytes ++ crlf) k
                  (e ∙ ap (λ m. take m (line b'$' text ++ (bytes ++ crlf))) late) in
              parse-line utf8 f buf o b'$' text (take k (bytes ++ crlf)) (omega arith)
                (refl, IsLine-decimal (length bytes)) whole
              ∙ (ap (bulk_of buf o (length text + 3)) (parse_int-signed_text (pos (length bytes)))
                  ∙ bulk_of-cut buf o bytes text k whole (
                      omega (
                        arith,
                        late,
                        length-append (line b'$' text) (bytes ++ crlf),
                        length-line b'$' text,
                        length-append bytes crlf,
                      )))
        ]
    cut_reply (sequence rs) f buf o n d w l e =
        let text = decimal (size rs) in
        let head = length text + 3 in
        elim (cut-cases n head) [
          | inl early ↦
              cut_header f buf o b'*' text (encode_all rs) n (omega arith)
                (refl, IsLine-decimal (size rs)) early e
          | inr (k, late) ↦
              let whole =
                whole_header buf o b'*' text (encode_all rs) k
                  (e ∙ ap (λ m. take m (line b'*' text ++ encode_all rs)) late) in
              parse-line utf8 f buf o b'*' text (take k (encode_all rs)) (omega arith)
                (refl, IsLine-decimal (size rs)) whole
              ∙ (ap (array_branch (parse utf8 (f - 1) buf) o head)
                    (parse_int-signed_text (pos (size rs)))
                  ∙ ap (array_of o) (
                      cut_items rs (f - 1) buf (o + head) k (omega (arith, late)) w
                        (omega (
                          arith,
                          late,
                          length-append (line b'*' text) (encode_all rs),
                          length-line b'*' text,
                        ))
                        (behind-line buf o b'*' text (take k (encode_all rs)) whole)))
        ]

    cut_items :
        (rs : Replies) (f : ℕ) (buf : List ℕ) (o n : ℕ)
        → n < f
        → AreWellFormed rs
        → n < length (encode_all rs)
        → drop o buf ≡ take n (encode_all rs)
        → items (parse utf8 f buf) (size rs) (at o) ≡ Items.incomplete
    cut_items Replies.nil f buf o n d w l e = absurd (omega arith)
    cut_items (Replies.cons r rs) f buf o n d w l e = elim (cut-cases n (length (encode r))) [
      | inl early ↦
          let first : parse utf8 f buf (at o) ≡ Outcome.incomplete =
            cut_reply r f buf o n (omega arith) w.0 early
              (e ∙ take-le_append n (encode r) (encode_all rs) (omega arith)) in
          rw (first, items) refl
      | inr (k, late) ↦
          let whole : drop o buf ≡ encode r ++ take k (encode_all rs) =
            e
            ∙ (ap (λ m. take m (encode r ++ encode_all rs)) late
                ∙ take-append_add (encode r) (encode_all rs) k) in
          let first =
            parse-encode_rec utf8 r f buf o (take k (encode_all rs))
              (omega (arith, late, depth_le_length r)) w.0 whole in
          let behind : drop (o + length (encode r)) buf ≡ take k (encode_all rs) =
            drop-add o (length (encode r)) buf
            ∙ (ap (drop (length (encode r))) whole
                ∙ drop_append (encode r) (take k (encode_all rs))) in
          let others : items (parse utf8 f buf) (size rs) (at (o + length (encode r)))
              ≡ Items.incomplete =
            cut_items rs f buf (o + length (encode r)) k (omega (arith, late)) w.1
              (omega (arith, late, length-append (encode r) (encode_all rs))) behind in
          rw (first, items) (rw (others, items) refl)
    ]

  -- Of a well-formed reply that the buffer holds only in part, however it was cut, the parser says
  -- that it is incomplete, if the fuel exceeds the number of its bytes.
  pub parse-cut :
      (r : Reply) (f n : ℕ) (before : List ℕ)
      → n < f
      → IsWellFormed r
      → n < length (encode r)
      → parse utf8 f (before ++ take n (encode r)) (at (length before)) ≡ Outcome.incomplete
  parse-cut r f n before d w l =
      cut_reply r f (before ++ take n (encode r)) (length before) n d w l
        (drop_append before (take n (encode r)))
