-- ===== src/Android/Chain.antt =====
-- `parseLengthPrefixedChain` of aka.go.
use npvtunnel_creator_server.Base.{
  ℕ, zero, suc, ◌+◌, ◌*◌, List, [], ◌∷◌, ◌++◌, Bytes, Text, text, if◌then◌else◌, ltb, length, take,
  drop, decimal,
}
use npvtunnel_creator_server.Base.Results.{Result, ok, err, stuck, ◌>>=◌, wrap}
use npvtunnel_creator_server.Android.{Certificate, Certificates}

abbrev truncated_prefix : ℕ → Text
truncated_prefix position = text "truncated length prefix at offset " ++ decimal position

abbrev truncated_cert : ℕ → ℕ → ℕ → Text
truncated_cert position declared remaining =
    text "truncated cert at offset "
    ++ decimal position
    ++ text " (declared "
    ++ decimal declared
    ++ text " bytes, "
    ++ decimal remaining
    ++ text " remaining)"

-- `rest` is `raw[pos:]`. A round takes two bytes at least.
unfoldable pub parse_records :
    Certificates → ℕ → ℕ → Bytes → List Certificate → Result (List Certificate)
parse_records x fuel position [] chain = ok chain
parse_records x fuel position (b ∷ []) chain = err (truncated_prefix position)
parse_records x zero position (hi ∷ lo ∷ rest) chain = stuck
parse_records x (suc fuel) position (hi ∷ lo ∷ rest) chain =
    let cert_len = hi * 256 + lo in
    if ltb (length rest) cert_len
    then err (truncated_cert (position + 2) cert_len (length rest))
    else (wrap (text "parse cert " ++ decimal (length chain))
          (x.parse_certificate (take cert_len rest))
        >>= λ cert.
            parse_records x fuel (position + 2 + cert_len) (drop cert_len rest)
              (chain ++ cert ∷ []))

unfoldable pub parse_length_prefixed_chain : Certificates → Bytes → Result (List Certificate)
parse_length_prefixed_chain x raw = parse_records x (length raw) 0 raw []
