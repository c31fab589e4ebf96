-- ===== src/Dns/Examples.antt =====
-- A query for `a`, type A, class IN.
use susentorno.Base.{◌-◌, ◌%◌, ◌^◌, ◌≡◌, refl, arith, true, none, some, [], ◌∷◌, take, drop}
use susentorno.Bytes.{Bytes, read_u16}
use susentorno.Dhcp.Ip.{Ip}
use susentorno.Dns.Message.{
  ParsedQuery, ok, parse_query, parse_labels, parse_question, respond, build_response, answer_for,
}
use susentorno.Dns.Message.Bounds.{IsResultOf, parse_query-IsResultOf}
use susentorno.Dns.Message.Replies.{respond-respond, respond-answers, build_response-question}

abbrev message : Bytes
message = 0 ∷ 9 ∷ 1 ∷ 0 ∷ 0 ∷ 1 ∷ 0 ∷ 0 ∷ 0 ∷ 0 ∷ 0 ∷ 0 ∷ 1 ∷ 65 ∷ 0 ∷ 0 ∷ 1 ∷ 0 ∷ 1 ∷ []

abbrev ip : Ip
ip = record { a = 192; b = 168; c = 50; d = 1 }

abbrev query : ParsedQuery
query = record { id = 9; rd = true; name = 97 ∷ []; qtype = 1; question_end = 19 }

parsed : parse_query message ≡ ok query
unfolding parse_query parse_labels parse_question
parsed = refl

answered : respond ip message ≡ some (build_response message query (some ip))
unfolding respond parse_query parse_labels parse_question answer_for
answered = refl

parse_query-IsResultOf_example : IsResultOf message (parse_query message)
parse_query-IsResultOf_example = parse_query-IsResultOf message

respond-respond_example : respond ip (build_response message query (some ip)) ≡ none
respond-respond_example =
    respond-respond ip message (build_response message query (some ip)) answered

respond-answers_example :
    (reply : Bytes) × (respond ip message ≡ some reply)
    × (read_u16 reply 0 ≡ read_u16 message 0 % 2 ^ 16)
respond-answers_example = respond-answers ip message (omega arith) refl

build_response-question_example :
    take (19 - 12) (drop 12 (build_response message query (some ip)))
    ≡ take (19 - 12) (drop 12 message)
build_response-question_example = build_response-question message query (some ip) parsed
