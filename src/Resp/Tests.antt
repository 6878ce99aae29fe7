-- ===== src/Resp/Tests.antt =====
-- The codec at concrete bytes.
use revenant_cloud.Base.{
  take, false, pos, negsuc, ℕ, ◌≡◌, refl, none, some, List, [], ◌∷◌, ◌++◌, codes, decimal, length,
  arith,
}
use revenant_cloud.Resp.Grammar.{Reply, Replies, string, integer, sequence, encode, value}
use revenant_cloud.Resp.Parsing.{parse-encode}
use revenant_cloud.Resp.Prefix.{parse-cut}
use revenant_cloud.Resp.Client.{
  Probe, resolved, rejected, drain, on_data, connection_failed, send, close,
}
use revenant_cloud.Resp.Streaming.{on_data-encode}
use revenant_cloud.Resp.Stuck.{drain-negative}
use revenant_cloud.Resp.Commands.{bulks, parse_resp-encode_command}
use revenant_cloud.Resp.{
  parse, at, bulk, number, null, array, nil, cons, crlf, encode_command, Outcome, parse, parse_resp,
}

abbrev plain : List ℕ → List ℕ
plain bytes = bytes

commands :
    encode_command (codes "AUTH" ∷ codes "pw" ∷ [])
    ≡ codes "*2"
      ++ (crlf
          ++ (codes "$4"
              ++ (crlf
                  ++ (codes "AUTH" ++ (crlf ++ (codes "$2" ++ (crlf ++ (codes "pw" ++ crlf))))))))
unfolding encode_command decimal
commands = refl

replies :
    (parse_resp plain (codes "+OK" ++ crlf) 0 ≡ Outcome.done (bulk (codes "OK")) (some (pos 5)))
    × (parse_resp plain (codes "$3" ++ (crlf ++ (codes "a" ++ (crlf ++ crlf)))) 0
        ≡ Outcome.done (bulk (codes "a" ++ crlf)) (some (pos 9)))
    × (parse_resp plain (codes "$3" ++ (crlf ++ codes "abc")) 0 ≡ Outcome.incomplete)
    × (parse_resp plain (codes "*2" ++ (crlf ++ (codes ":-7" ++ (crlf ++ (codes "$-1" ++ crlf))))) 0
        ≡ Outcome.done (array (cons (number (some (negsuc 6))) (cons null nil))) (some (pos 14)))
unfolding parse_resp
replies = (refl, refl, refl, refl)

-- A negative length that is not -1 consumes nothing, or moves the parser back.
malformed :
    (parse_resp plain (codes "$-7" ++ crlf) 0 ≡ Outcome.done (bulk []) (some (pos 0)))
    × (parse_resp plain (codes "$-9" ++ crlf) 0 ≡ Outcome.done (bulk []) (some (negsuc 1)))
    × (parse_resp plain (codes "$x" ++ crlf) 0 ≡ Outcome.done (bulk []) none)
    × (parse_resp plain (codes "*2" ++ (crlf ++ (codes "$-12" ++ crlf))) 0 ≡ Outcome.deep)
unfolding parse_resp
malformed = (refl, refl, refl, refl)

abbrev reply : Reply
reply =
    sequence
      (Replies.cons (string (codes "v" ++ crlf)) (Replies.cons (integer (negsuc 6)) Replies.nil))

parse-encode_example :
    parse plain 2 (codes "x" ++ (encode reply ++ codes "+")) (at 1)
    ≡ Outcome.done (value plain reply) (some (pos (length (encode reply))))
parse-encode_example =
    parse-encode plain reply 2 (codes "x") (codes "+") (omega arith) (tt, (tt, tt))

abbrev auth : List (List ℕ)
auth = codes "AUTH" ∷ codes "pw" ∷ []

parse_resp-encode_command_example :
    parse_resp plain (encode_command auth ++ codes "*") 0
    ≡ Outcome.done (array (bulks auth)) (some (pos (length (encode_command auth))))
parse_resp-encode_command_example = parse_resp-encode_command plain auth (codes "*")

abbrev waiting : Probe
waiting = record {
  buffer = codes ":-";
  pending = 1 ∷ 2 ∷ [];
  closed = false;
  settled = [];
  written = [];
}

on_data-encode_example :
    on_data plain (codes "7" ++ (crlf ++ codes "*2")) waiting
    ≡ some (record waiting {
      buffer = codes "*2";
      pending = 2 ∷ [];
      settled = resolved 1 (number (some (negsuc 6))) ∷ [];
    })
unfolding encode decimal
on_data-encode_example =
    on_data-encode plain (Replies.cons (integer (negsuc 6)) Replies.nil) reply 2
      (codes "7" ++ (crlf ++ codes "*2")) waiting (tt, tt) (tt, (tt, tt)) (omega arith) refl

parse-cut_example : parse plain 9 (codes "x" ++ take 7 (encode reply)) (at 1) ≡ Outcome.incomplete
unfolding encode decimal
parse-cut_example = parse-cut plain reply 9 7 (codes "x") (omega arith) (tt, (tt, tt)) (omega arith)

abbrev stuck : Probe
stuck = record waiting { buffer = codes "$-7" ++ crlf }

drain-negative_example : drain plain 1000 stuck ≡ none
drain-negative_example = drain-negative plain 1000 [] stuck refl

-- A promise that waits when the probe is closed is not settled when the socket then closes.
closing :
    (connection_failed (close waiting)).settled ≡ []
    × ((connection_failed waiting).settled ≡ rejected 1 ∷ rejected 2 ∷ [])
    × ((send 3 [] (close waiting)).settled ≡ rejected 3 ∷ [])
closing = (refl, refl, refl)
