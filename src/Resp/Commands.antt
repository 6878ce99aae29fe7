-- ===== src/Resp/Commands.antt =====
-- Commands as they are sent, read back by the client's own parser.
use mathlib.Core.List.{append_assoc}
use mathlib.Core.Path.{subst}
use revenant_cloud.Base.{
  pos, ℕ, suc, ◌<◌, ◌≡◌, refl, sym, ap, ◌∙◌, List, [], ◌∷◌, ◌++◌, some, length, decimal,
  length-append, arith, max,
}
use revenant_cloud.Resp.{
  bulk, array, Values, crlf, at, Outcome, encode_args, encode_command, parse, parse_resp,
}
use revenant_cloud.Resp.Grammar.{
  Replies, string, sequence, size, line, encode, encode_all, AreWellFormed, depth_all, values,
}
use revenant_cloud.Resp.Parsing.{parse-encode}

-- A command's arguments as replies, and as values.
abbrev pub strings : List (List ℕ) → Replies
strings [] = Replies.nil
strings (a ∷ rest) = Replies.cons (string a) (strings rest)

abbrev pub bulks : List (List ℕ) → Values
bulks [] = Values.nil
bulks (a ∷ rest) = Values.cons (bulk a) (bulks rest)

size-strings : (args : List (List ℕ)) → size (strings args) ≡ length args
size-strings [] = refl
size-strings (a ∷ rest) = ap suc (size-strings rest)

depth-strings : (args : List (List ℕ)) → depth_all (strings args) ≡ 0
depth-strings [] = refl
depth-strings (a ∷ rest) = ap (max 0) (depth-strings rest)

strings-AreWellFormed : (args : List (List ℕ)) → AreWellFormed (strings args)
strings-AreWellFormed [] = tt
strings-AreWellFormed (a ∷ rest) = (tt, strings-AreWellFormed rest)

values-strings :
    (utf8 : List ℕ → List ℕ) (args : List (List ℕ)) → values utf8 (strings args) ≡ bulks args
values-strings utf8 [] = refl
values-strings utf8 (a ∷ rest) = ap (Values.cons (bulk a)) (values-strings utf8 rest)

-- A header line in front of a text, bracketed to the right.
line-append :
    (type : ℕ) (text rest : List ℕ) → line type text ++ rest ≡ type ∷ (text ++ (crlf ++ rest))
line-append type text rest = ap (λ s. type ∷ s) (append_assoc text crlf rest)

encode_all-strings : (args : List (List ℕ)) → encode_all (strings args) ≡ encode_args args
unfolding encode encode_args
encode_all-strings [] = refl
encode_all-strings (a ∷ rest) =
    append_assoc (line b'$' (decimal (length a))) (a ++ crlf) (encode_all (strings rest))
    ∙ (ap (λ s. line b'$' (decimal (length a)) ++ s)
          (append_assoc a crlf (encode_all (strings rest))
            ∙ ap (λ s. a ++ (crlf ++ s)) (encode_all-strings rest))
        ∙ line-append b'$' (decimal (length a)) (a ++ (crlf ++ encode_args rest)))

-- A command is encoded as the protocol's array of bulk strings.
pub encode_command-encode :
    (args : List (List ℕ)) → encode_command args ≡ encode (sequence (strings args))
unfolding encode encode_command
encode_command-encode args = sym (
    line-append b'*' (decimal (size (strings args))) (encode_all (strings args))
    ∙ (ap (λ n. b'*' ∷ (decimal n ++ (crlf ++ encode_all (strings args)))) (size-strings args)
        ∙ ap (λ s. b'*' ∷ (decimal (length args) ++ (crlf ++ s))) (encode_all-strings args)))

command_not_empty : (args : List (List ℕ)) → 0 < length (encode_command args)
unfolding encode_command
command_not_empty args = omega arith

-- An encoded command, whatever bytes its arguments hold and whatever follows it, parses as the array
-- of its arguments and is consumed whole.
pub parse_resp-encode_command :
    (utf8 : List ℕ → List ℕ) (args : List (List ℕ)) (rest : List ℕ)
    → parse_resp utf8 (encode_command args ++ rest) 0
      ≡ Outcome.done (array (bulks args)) (some (pos (length (encode_command args))))
unfolding parse_resp
parse_resp-encode_command utf8 args rest =
    let fuel = suc (length (encode_command args ++ rest)) in
    let deep_enough : suc (depth_all (strings args)) < fuel = omega (
      arith,
      depth-strings args,
      length-append (encode_command args) rest,
      command_not_empty args,
    ) in
    let parsed : parse utf8 fuel (encode (sequence (strings args)) ++ rest) (at 0)
        ≡ Outcome.done (array (values utf8 (strings args)))
            (some (pos (length (encode (sequence (strings args)))))) =
      parse-encode utf8 (sequence (strings args)) fuel [] rest deep_enough
        (strings-AreWellFormed args) in
    subst
      (λ s.
        parse utf8 fuel (s ++ rest) (at 0)
        ≡ Outcome.done (array (bulks args)) (some (pos (length s))))
      (sym (encode_command-encode args))
      (parsed
        ∙ ap
            (λ vs. Outcome.done (array vs) (some (pos (length (encode (sequence (strings args)))))))
            (values-strings utf8 args))
