-- ===== src/Resp/Streaming.antt =====
-- The probe serves its waiters in order, wherever the chunks of the socket are cut.
use mathlib.Core.List.{append_assoc, append-nil}
use revenant_cloud.Base.{
  pos, ℕ, zero, suc, ◌≤◌, ◌<◌, ◌≡◌, refl, sym, ap, ◌∙◌, some, List, [], ◌∷◌, ◌++◌, arith, length,
  length-append, length-take, take, drop, drop_append, drop-nil, Bool,
}
use revenant_cloud.Resp.{RespValue, Outcome, parse_resp}
use revenant_cloud.Resp.Grammar.{
  Reply, Replies, simple, failure, integer, string, no_string, no_array, sequence, size, encode,
  encode_all, IsWellFormed, AreWellFormed, value,
}
use revenant_cloud.Resp.Parsing.{parse-encode_rec}
use revenant_cloud.Resp.Prefix.{cut_reply, depth_le_length}
use revenant_cloud.Resp.Client.{Settlement, resolved, Probe, others, first_gets, drain, on_data}

abbrev probe_of : List ℕ → List ℕ → Bool → List Settlement → List ℕ → Probe
probe_of buffer pending closed settled written = record {
  buffer = buffer;
  pending = pending;
  closed = closed;
  settled = settled;
  written = written;
}

encode_not_empty : (r : Reply) → 0 < length (encode r)
unfolding encode
encode_not_empty (simple text) = omega arith
encode_not_empty (failure text) = omega arith
encode_not_empty (integer z) = omega arith
encode_not_empty (string bytes) = omega arith
encode_not_empty no_string = omega arith
encode_not_empty no_array = omega arith
encode_not_empty (sequence rs) = omega arith

size_le_length : (rs : Replies) → size rs ≤ length (encode_all rs)
unfolding encode
size_le_length Replies.nil = omega arith
size_le_length (Replies.cons r rs) =
    omega (arith, encode_not_empty r, size_le_length rs, length-append (encode r) (encode_all rs))

module _ (utf8 : List ℕ → List ℕ) where
  -- The replies, each to the waiter whose turn it is; a reply that nobody awaits is dropped.
  abbrev pub answers : Replies → List ℕ → List Settlement
  answers Replies.nil waiters = []
  answers (Replies.cons r rs) [] = []
  answers (Replies.cons r rs) (w ∷ waiters) = resolved w (value utf8 r) ∷ answers rs waiters

  answers-none : (rs : Replies) → answers rs [] ≡ []
  answers-none Replies.nil = refl
  answers-none (Replies.cons r rs) = refl

  parsed-first :
      (r : Reply) (rest : List ℕ)
      → IsWellFormed r
      → parse_resp utf8 (encode r ++ rest) 0
        ≡ Outcome.done (value utf8 r) (some (pos (length (encode r))))
  unfolding parse_resp
  parsed-first r rest w =
      parse-encode_rec utf8 r (suc (length (encode r ++ rest))) (encode r ++ rest) 0 rest
        (omega (arith, depth_le_length r, length-append (encode r) rest)) w refl

  parsed-cut :
      (r : Reply) (n : ℕ)
      → IsWellFormed r
      → n < length (encode r)
      → parse_resp utf8 (take n (encode r)) 0 ≡ Outcome.incomplete
  unfolding parse_resp
  parsed-cut r n w l =
      cut_reply utf8 r (suc (length (take n (encode r)))) (take n (encode r)) 0 n
        (omega (arith, length-take n (encode r) (omega arith))) w l refl

  drain-done :
      (f m : ℕ) (v : RespValue) (buffer waiters : List ℕ) (c : Bool) (settled : List Settlement)
      (written : List ℕ)
      → parse_resp utf8 buffer 0 ≡ Outcome.done v (some (pos m))
      → drain utf8 (suc f) (probe_of buffer waiters c settled written)
        ≡ drain utf8 f
            (probe_of (drop m buffer) (others waiters) c (settled ++ first_gets v waiters) written)
  unfolding drain
  drain-done f m v buffer waiters c settled written e = rw (e, drain) refl

  drop-others : (n : ℕ) (waiters : List ℕ) → drop n (others waiters) ≡ drop (suc n) waiters
  drop-others n [] = drop-nil n
  drop-others n (w ∷ waiters) = refl

  answers-others :
      (q : Reply) (rs : Replies) (waiters : List ℕ) (settled : List Settlement)
      → (settled ++ first_gets (value utf8 q) waiters) ++ answers rs (others waiters)
        ≡ settled ++ answers (Replies.cons q rs) waiters
  answers-others q rs [] settled =
      append_assoc settled [] (answers rs []) ∙ ap (λ s. settled ++ s) (answers-none rs)
  answers-others q rs (w ∷ waiters) settled =
      append_assoc settled (resolved w (value utf8 q) ∷ []) (answers rs waiters)

  drain-encode :
      (rs : Replies) (r : Reply) (n f : ℕ) (waiters : List ℕ) (c : Bool) (settled : List Settlement)
      (written : List ℕ)
      → AreWellFormed rs
      → IsWellFormed r
      → n < length (encode r)
      → size rs < f
      → drain utf8 f (probe_of (encode_all rs ++ take n (encode r)) waiters c settled written)
        ≡ some (
            probe_of
              (take n (encode r))
              (drop (size rs) waiters)
              c
              (settled ++ answers rs waiters)
              written)
  unfolding drain encode
  drain-encode rs r n zero waiters c settled written ws w l e = absurd (omega arith)
  drain-encode Replies.nil r n (suc f) waiters c settled written ws w l e =
      rw (parsed-cut r n w l, drain)
        (ap (λ s. some (probe_of (take n (encode r)) waiters c s written))
          (sym (append-nil settled)))
  drain-encode (Replies.cons q rs) r n (suc f) waiters c settled written ws w l e =
      let tail = take n (encode r) in
      let buffer = (encode q ++ encode_all rs) ++ tail in
      let parsed =
        ap (λ b. parse_resp utf8 b 0) (append_assoc (encode q) (encode_all rs) tail)
        ∙ parsed-first q (encode_all rs ++ tail) ws.0 in
      let behind : drop (length (encode q)) buffer ≡ encode_all rs ++ tail =
        ap (drop (length (encode q))) (append_assoc (encode q) (encode_all rs) tail)
        ∙ drop_append (encode q) (encode_all rs ++ tail) in
      let gets = settled ++ first_gets (value utf8 q) waiters in
      drain-done f (length (encode q)) (value utf8 q) buffer waiters c settled written parsed
      ∙ (ap (λ b. drain utf8 f (probe_of b (others waiters) c gets written)) behind
          ∙ (drain-encode rs r n f (others waiters) c gets written ws.1 w l (omega (arith, e))
              ∙ (ap (λ p. some (probe_of tail p c (gets ++ answers rs (others waiters)) written))
                    (drop-others (size rs) waiters)
                  ∙ ap (λ s. some (probe_of tail (drop (suc (size rs)) waiters) c s written))
                      (answers-others q rs waiters settled))))

  -- Once the bytes that have come make whole well-formed replies and a part of one more, wherever they
  -- were cut into chunks, the loop ends: the waiters have got the replies in order, each the next one,
  -- and only the part is still in the buffer.
  pub on_data-encode :
      (rs : Replies) (r : Reply) (n : ℕ) (chunk : List ℕ) (probe : Probe)
      → AreWellFormed rs
      → IsWellFormed r
      → n < length (encode r)
      → probe.buffer ++ chunk ≡ encode_all rs ++ take n (encode r)
      → on_data utf8 chunk probe
        ≡ some (record probe {
          buffer = take n (encode r);
          pending = drop (size rs) probe.pending;
          settled = probe.settled ++ answers rs probe.pending;
        })
  unfolding on_data
  on_data-encode rs r n chunk probe ws w l e =
      let arrived = encode_all rs ++ take n (encode r) in
      ap
        (λ b.
          drain utf8 (suc (length b))
            (probe_of b probe.pending probe.closed probe.settled probe.written))
        e
      ∙ drain-encode rs r n (suc (length arrived)) probe.pending probe.closed probe.settled
          probe.written ws w l
          (omega (arith, size_le_length rs, length-append (encode_all rs) (take n (encode r))))
