-- ===== src/Resp/Stuck.antt =====
-- A reply of negative length that makes the loop of `#onData` run for ever.
use revenant_cloud.Base.{ℕ, zero, suc, pos, ◌≡◌, refl, ap, ◌∙◌, none, some, List, ◌∷◌}
use revenant_cloud.Resp.{RespValue, Outcome, parse_resp}
use revenant_cloud.Resp.Client.{Probe, serve, drain}

module _ (utf8 : List ℕ → List ℕ) where
  -- A round that consumes nothing is repeated however often the loop runs.
  drain-nothing :
      (v : RespValue) (buffer : List ℕ)
      → parse_resp utf8 buffer 0 ≡ Outcome.done v (some (pos 0))
      → (f : ℕ) (probe : Probe) → probe.buffer ≡ buffer
      → drain utf8 f probe ≡ none
  unfolding drain
  drain-nothing v buffer e zero probe h = refl
  drain-nothing v buffer e (suc f) probe h =
      rw (ap (λ b. parse_resp utf8 b 0) h ∙ e, drain) (drain-nothing v buffer e f (serve v probe) h)

  negative_length : (rest : List ℕ) → List ℕ
  negative_length rest = b'$' ∷ b'-' ∷ b'7' ∷ 13 ∷ 10 ∷ rest

  parsed-negative :
      (rest : List ℕ)
      → (v : RespValue) × (parse_resp utf8 (negative_length rest) 0 ≡ Outcome.done v (some (pos 0)))
  unfolding parse_resp negative_length
  parsed-negative rest = (_, refl)

  -- Once the buffer starts with the line $-7, the loop never ends, whatever number of rounds it is
  -- given and whatever follows in the buffer.
  pub drain-negative :
      (f : ℕ) (rest : List ℕ) (probe : Probe)
      → probe.buffer ≡ b'$' ∷ b'-' ∷ b'7' ∷ 13 ∷ 10 ∷ rest
      → drain utf8 f probe ≡ none
  unfolding negative_length
  drain-negative f rest probe h =
      let (v, e) = parsed-negative rest in drain-nothing v (negative_length rest) e f probe h
