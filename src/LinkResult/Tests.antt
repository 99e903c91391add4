-- ===== src/LinkResult/Tests.antt =====
-- Link results at concrete inputs.
use construct_server.Base.{◌≡◌, some, true, refl, ◌∷◌, []}
use construct_server.LinkResult.{
  decode_link_result, encode_link_result, decode_link_result-encode_link_result,
}

encoded :
    encode_link_result (97 ∷ []) (98 ∷ 99 ∷ []) (7 ∷ []) ≡ some (1 ∷ 97 ∷ 2 ∷ 98 ∷ 99 ∷ 7 ∷ [])
unfolding encode_link_result
encoded = refl

decode_link_result-encode_link_result_example :
    decode_link_result (λ b. true) (1 ∷ 97 ∷ 2 ∷ 98 ∷ 99 ∷ 7 ∷ [])
    ≡ some (97 ∷ [], 98 ∷ 99 ∷ [], 7 ∷ [])
decode_link_result-encode_link_result_example =
    decode_link_result-encode_link_result (λ b. true) (97 ∷ []) (98 ∷ 99 ∷ []) (7 ∷ [])
      (1 ∷ 97 ∷ 2 ∷ 98 ∷ 99 ∷ 7 ∷ []) refl refl encoded
