-- ===== src/Envelope/Crash.antt =====
-- `decodeEnvelopeWire` of envelope.go, on the frames on which it panics.
use npvtunnel_creator_server.Base.{
  ℕ, ◌+◌, ◌^◌, ◌<◌, ◌≤◌, ◌≡◌, ◌↔◌, refl, sym, ap, ap₂, ◌∙◌, [], ◌∷◌, ◌++◌, Option, some, none,
  Bytes, length, arith, drop, length-drop, true, str_eq_refl, str_eq_iff, inl, inr, Option-cases,
}
use npvtunnel_creator_server.Base64.RoundTrip.{IsBytes}
use npvtunnel_creator_server.Envelope.Layout.{length-put_uint32, get_uint32-put_uint32}
use npvtunnel_creator_server.Envelope.RoundTrip.{drop-drop, At, At-next}
use npvtunnel_creator_server.Envelope.Accept.{
  drop-slice, length-drop-slice, drop-IsBytes, get_uint32-some, byte_is-drop,
}
use npvtunnel_creator_server.Envelope.{
  version, magic, put_uint32, get_uint32, slice, byte_is, min_len, panicked, body_nonce_len,
  decode_envelope_wire, decode_header, decode_body,
}

-- The frame ends fewer than four bytes after the nonce, though the whole is as long as an envelope
-- with an empty header and body.
pub record EndsInBodyLength (raw : Bytes) : Type 0 where
  pub header : Bytes
  pub body_nonce : Bytes
  pub tail : Bytes
  pub shape :
      raw ≡ magic ++ (version ∷ (put_uint32 (length header) ++ (header ++ (body_nonce ++ tail))))
  pub nonce_len : length body_nonce ≡ body_nonce_len
  pub short_tail : length tail < 4
  pub long_enough : min_len ≤ length raw
  pub header_small : length header < 2 ^ 32

get_uint32-none : (xs : Bytes) → length xs < 4 → get_uint32 xs ≡ none
unfolding get_uint32
get_uint32-none [] h = refl
get_uint32-none (a ∷ []) h = refl
get_uint32-none (a ∷ b ∷ []) h = refl
get_uint32-none (a ∷ b ∷ c ∷ []) h = refl
get_uint32-none (a ∷ b ∷ c ∷ d ∷ xs) h = absurd (omega arith)

short-get_uint32 : (xs : Bytes) → get_uint32 xs ≡ none → length xs < 4
unfolding get_uint32
short-get_uint32 [] e = omega arith
short-get_uint32 (a ∷ []) e = omega arith
short-get_uint32 (a ∷ b ∷ []) e = omega arith
short-get_uint32 (a ∷ b ∷ c ∷ []) e = omega arith
short-get_uint32 (a ∷ b ∷ c ∷ d ∷ xs) e = cc

get_uint32-small : (xs : Bytes) {n : ℕ} → IsBytes xs → get_uint32 xs ≡ some n → n < 2 ^ 32
unfolding get_uint32
get_uint32-small (a ∷ b ∷ c ∷ d ∷ rest) h e = ground arith
get_uint32-small _ h e = cc

module _ {H : Type 0} (unmarshal : Bytes → Option H) where
  panics_tail :
      (raw header body_nonce tail : Bytes)
      → length body_nonce ≡ 12
      → length header < 2 ^ 32
      → length tail < 4
      → At raw 5 (put_uint32 (length header) ++ (header ++ (body_nonce ++ tail)))
      → decode_header unmarshal raw 9 (get_uint32 (drop 5 raw)) ≡ panicked
  unfolding decode_header decode_body
  panics_tail raw header body_nonce tail nonce small short at =
      let at1 : At raw 9 (header ++ (body_nonce ++ tail)) =
        At-next raw 5 (put_uint32 (length header)) _ at 4
          (sym (length-put_uint32 (length header))) in
      let at2 : At raw (9 + length header) (body_nonce ++ tail) = At-next raw 9 _ _ at1 _ refl in
      let at3 : At raw (9 + length header + 12) tail =
        At-next raw (9 + length header) _ _ at2 12 (sym nonce) in
      rw
        (
          at.rest,
          get_uint32-put_uint32 (length header) _ small,
          at3.rest,
          get_uint32-none tail short,
        )
        (ground (arith, at2.size, at3.size))

  panicked_tests :
      (raw : Bytes)
      → decode_envelope_wire unmarshal raw ≡ panicked
      → (min_len ≤ length raw)
        × (slice raw 0 4 ≡ magic)
        × (byte_is version (drop 4 raw) ≡ true)
        × (decode_header unmarshal raw 9 (get_uint32 (drop 5 raw)) ≡ panicked)
  unfolding decode_envelope_wire
  panicked_tests raw e = ground (arith, str_eq_iff (slice raw 0 4) magic)

  panicked_body :
      (raw header body_nonce : Bytes) (off : ℕ) (o : Option ℕ)
      → decode_body unmarshal raw off header body_nonce o ≡ panicked
      → o ≡ none
  unfolding decode_body
  panicked_body raw header body_nonce off none e = refl
  panicked_body raw header body_nonce off (some n) e =
      ground (arith, Option-cases (unmarshal header))

  panicked_header :
      (raw : Bytes) (n : ℕ)
      → decode_header unmarshal raw 9 (some n) ≡ panicked
      → (9 + n + 12 ≤ length raw) × (get_uint32 (drop (9 + n + 12) raw) ≡ none)
  unfolding decode_header
  panicked_header raw n e = ground (
    arith,
    panicked_body raw (slice raw 9 n) (slice raw (9 + n) 12) (9 + n + 12)
        (get_uint32 (drop (9 + n + 12) raw)),
  )

  ends_early :
      (raw : Bytes)
      → IsBytes raw
      → decode_envelope_wire unmarshal raw ≡ panicked
      → EndsInBodyLength raw
  ends_early raw bytes e =
      let (enough, starts, versioned, dh) = panicked_tests raw e in
      elim (Option-cases (get_uint32 (drop 5 raw))) [
        | inl missing ↦
            absurd (omega (arith, short-get_uint32 (drop 5 raw) missing, length-drop 5 raw))
        | inr (n, read) ↦
            let (fits, missing) = panicked_header raw n (rw read at dh) in
            let h_len : length (slice raw 9 n) ≡ n = length-drop-slice raw 9 n (omega arith) in
            record {
              header = slice raw 9 n;
              body_nonce = slice raw (9 + n) 12;
              tail = drop (9 + n + 12) raw;
              shape =
                  drop-slice raw 0 4
                  ∙ ap₂ (λ a b. a ++ b) starts
                      (byte_is-drop version (drop 4 raw) versioned
                        ∙ ap (◌∷◌ version) (
                            sym (drop-drop 4 1 raw)
                            ∙ get_uint32-some (drop 5 raw) (drop-IsBytes 5 raw bytes) read
                            ∙ rw h_len (
                                ap (◌++◌ (put_uint32 n)) (
                                  sym (drop-drop 5 4 raw)
                                  ∙ drop-slice raw 9 n
                                  ∙ ap (◌++◌ (slice raw 9 n)) (drop-slice raw (9 + n) 12)))));
              nonce_len = length-drop-slice raw (9 + n) 12 fits;
              short_tail = short-get_uint32 (drop (9 + n + 12) raw) missing;
              long_enough = enough;
              header_small =
                  omega (arith, get_uint32-small (drop 5 raw) (drop-IsBytes 5 raw bytes) read);
            }
      ]

  crashes : (raw : Bytes) → EndsInBodyLength raw → decode_envelope_wire unmarshal raw ≡ panicked
  unfolding decode_envelope_wire
  crashes raw c =
      let frame : Bytes = put_uint32 (length c.header) ++ (c.header ++ (c.body_nonce ++ c.tail)) in
      let inside : At raw 5 frame = rw c.shape (record { rest = refl; size = omega arith }) in
      let starts : slice raw 0 4 ≡ magic = rw c.shape in
      let versioned : byte_is version (drop 4 raw) ≡ true = rw c.shape in
      rw
        (
          starts,
          str_eq_refl magic,
          versioned,
          panics_tail raw c.header c.body_nonce c.tail c.nonce_len c.header_small c.short_tail
              inside,
        )
        (ground (arith, c.long_enough))

  -- The decoder panics exactly on the frames that have an envelope's minimal length, its magic and
  -- its version, and whose header leaves fewer than four bytes behind the nonce.
  pub decode_envelope_wire-panicked :
      (raw : Bytes)
      → IsBytes raw
      → (decode_envelope_wire unmarshal raw ≡ panicked) ↔ EndsInBodyLength raw
  decode_envelope_wire-panicked raw bytes = (ends_early raw bytes, crashes raw)
