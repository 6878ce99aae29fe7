-- ===== src/Resp/Client.antt =====
-- The connection that the probe keeps: the class `RedisProbe` (apps/api/src/lib/redis-client.ts).
-- A waiter is the number of its promise, and what happens to promises is recorded in order. The
-- socket is outside: its events call `on_data` and `connection_failed`, and `written` holds what was sent.
use revenant_cloud.Base.{
  ℕ, zero, suc, ◌-◌, ℤ, pos, negsuc, Bool, true, false, Option, none, some, List, [], ◌∷◌, ◌++◌,
  length, drop, map,
}
use revenant_cloud.Resp.{RespValue, Outcome, encode_command, parse_resp}

pub data Settlement : Type 0 where
  resolved : ℕ → RespValue → Settlement
  rejected : ℕ → Settlement

pub record Probe : Type 0 where
  pub buffer : List ℕ
  pub pending : List ℕ
  pub closed : Bool
  pub settled : List Settlement
  pub written : List ℕ

-- `subarray(consumed)`: from the end where it is negative, and from the start where it is NaN.
abbrev pub after : List ℕ → Option ℤ → List ℕ
after buf none = buf
after buf (some (pos n)) = drop n buf
after buf (some (negsuc n)) = drop (length buf - suc n) buf

-- `pending.shift()`: the others, and what the first gets.
abbrev pub others : List ℕ → List ℕ
others [] = []
others (waiter ∷ rest) = rest

abbrev pub first_gets : RespValue → List ℕ → List Settlement
first_gets v [] = []
first_gets v (waiter ∷ rest) = resolved waiter v ∷ []

abbrev pub serve : RespValue → Probe → Probe
serve v probe = record probe {
  pending = others probe.pending;
  settled = probe.settled ++ first_gets v probe.pending;
}

-- The loop of `#onData`. `none` is a loop that the fuel does not see the end of.
module _ (utf8 : List ℕ → List ℕ) where
  unfoldable pub drain : ℕ → Probe → Option Probe
  drain zero probe = none
  drain (suc f) probe = elim (parse_resp utf8 probe.buffer 0) [
    | Outcome.deep ↦ none
    | Outcome.incomplete ↦ some probe
    | Outcome.done v consumed ↦
        drain f (serve v (record probe { buffer = after probe.buffer consumed }))
  ]

  -- `#onData`, with a round for each byte of the buffer and one more.
  unfoldable pub on_data : List ℕ → Probe → Option Probe
  on_data chunk probe =
      let buffer = probe.buffer ++ chunk in
      drain (suc (length buffer)) (record probe { buffer = buffer })

-- `#fail`
abbrev pub connection_failed : Probe → Probe
connection_failed probe = elim probe.closed [
  | true ↦ probe
  | false ↦ record probe {
    closed = true;
    pending = [];
    settled = probe.settled ++ map rejected probe.pending;
  }
]

-- `send`: the promise `waiter` is rejected at once on a closed connection, and else waits.
abbrev pub send : ℕ → List (List ℕ) → Probe → Probe
send waiter args probe = elim probe.closed [
  | true ↦ record probe { settled = probe.settled ++ (rejected waiter ∷ []) }
  | false ↦ record probe {
    pending = probe.pending ++ (waiter ∷ []);
    written = probe.written ++ encode_command args;
  }
]

-- `close`
abbrev pub close : Probe → Probe
close probe = record probe { closed = true }
