-- ===== src/Minting/Opens.antt =====
-- `mintIssuerEnvelope` of envelope.go as a whole.
use npvtunnel_creator_server.Base.{
  ◌+◌, ◌^◌, ◌<◌, ◌≡◌, refl, ap, true, not, List, [], Option, some, Bytes, Text, text, length,
  length-append, ℤ, ◌==◌, str_eq, arith,
}
use npvtunnel_creator_server.Base64.{encode_to_string}
use npvtunnel_creator_server.Signing.{Crypto, verify_p1363_signature}
use npvtunnel_creator_server.Signing.Receipt.{KeyPair}
use npvtunnel_creator_server.Envelope.{
  ok, Decoded, decode_envelope_wire, build_signed_range, encode_envelope_wire, signed_len,
}
use npvtunnel_creator_server.Envelope.Layout.{encode-frame, length-signed_frame}
use npvtunnel_creator_server.Envelope.RoundTrip.{decode_envelope_wire-encode}
use npvtunnel_creator_server.Minting.{
  Ciphers, MintError, made, or_fail, demand, normalize_display_name, compress_p256,
}
use npvtunnel_creator_server.Minting.Mint.{
  Draws, EnvelopeHeader, IssuerBody, MintInput, MintResult, header_bytes, wrap_all, sign_p1363,
  seal, or_default_policy, chosen_id, check_recipients, mint_issuer_envelope,
}
use npvtunnel_creator_server.Minting.Steps.{step, or_fail-made}
use npvtunnel_creator_server.Minting.Wrap.{Laws}
use npvtunnel_creator_server.Minting.Sealed.{
  IsDrawn, Owned, Unwraps, wrap_all-Unwraps, sign-verifies,
}

abbrev issuer_body : MintInput → EnvelopeHeader → IssuerBody
issuer_body input h = record {
  kind = text "v2-issuer";
  creator_pubkey = h.creator_pk;
  issuer_url = input.issuer_url;
  display_name = normalize_display_name input.display_name;
}

-- An envelope that holds what its input says.
pub record Opens (k : Ciphers) (c : Crypto) (marshal : IssuerBody → Option Bytes)
    (public_key : Bytes) (owns : List Bytes) (input : MintInput) (r : MintResult) : Type 0 where
  pub dek : Bytes
  pub plain : Bytes
  pub header : EnvelopeHeader
  pub frame : Decoded Bytes
  pub decodes : decode_envelope_wire some r.envelope_bytes ≡ ok frame
  pub canonical : header_bytes header ≡ some frame.header_bytes
  pub signed :
      verify_p1363_signature c public_key
        (build_signed_range frame.header_bytes frame.body_nonce frame.body_ciphertext)
        frame.signature
      ≡ true
  pub names : header.config_id ≡ encode_to_string r.config_id
  pub policy : header.policy ≡ or_default_policy input.policy
  pub body : marshal (issuer_body input header) ≡ some plain
  pub opens :
      k.chacha_open dek frame.body_nonce frame.header_bytes frame.body_ciphertext ≡ some plain
  pub unwraps : Unwraps k r.config_id dek owns input.recipient_pub_keys header.recipients

frame_bounds :
    (header body_nonce body signature : Bytes)
    → length body_nonce ≡ 12
    → length signature ≡ 64
    → length (encode_envelope_wire header body_nonce body signature) < 2 ^ 32
    → (length header < 2 ^ 32) × (length body < 2 ^ 32)
frame_bounds header body_nonce body signature ln ls h =
    let framed =
      length-signed_frame header body_nonce body ln (signed_len header body) 0 (omega arith) in
    let short : signed_len header body + 64 < 2 ^ 32 =
      rw (encode-frame header body_nonce body ln signature ls, length-append, framed, ls) at h in
    (omega arith, omega arith)

made-injective : {a b : MintResult} → made a ≡ made b → a ≡ b
made-injective e = cc

module _ (k : Ciphers) (laws : Laws k) (c : Crypto) (public_key : Bytes)
    (pair : KeyPair c public_key) (format_time : ℤ → Text) (marshal : IssuerBody → Option Bytes)
    (d : Draws) (drawn : IsDrawn d) (now : ℤ) where
  seal-Opens :
      (input : MintInput) (h : EnvelopeHeader) (config_id dek body_nonce : Bytes)
      (owns : List Bytes) (r : MintResult)
      → seal c k format_time marshal d now input h config_id dek body_nonce ≡ made r
      → length r.envelope_bytes < 2 ^ 32
      → length body_nonce ≡ 12
      → h.config_id ≡ encode_to_string config_id
      → h.policy ≡ or_default_policy input.policy
      → Unwraps k config_id dek owns input.recipient_pub_keys h.recipients
      → Opens k c marshal public_key owns input r
  unfolding seal
  seal-Opens input h config_id dek body_nonce owns r e short ln named policy unwraps =
      step (or_fail MintError.bad_header (header_bytes h)) _ e λ header hb e.
        step (or_fail MintError.bad_body (marshal (issuer_body input h))) _ e λ body b e.
          step (or_fail MintError.no_body_cipher (k.chacha_seal dek body_nonce header body)) _ e
            λ cipher cb e.
              step
                (or_fail MintError.no_signature
                  (sign_p1363 c (build_signed_range header body_nonce cipher)))
                _ e
                λ sig sb e.
                  let sealed : encode_envelope_wire header body_nonce cipher sig
                      ≡ r.envelope_bytes =
                    ap (λ (m : MintResult). m.envelope_bytes) (made-injective e) in
                  let same_id : config_id ≡ r.config_id =
                    ap (λ (m : MintResult). m.config_id) (made-injective e) in
                  let (ls, verifies) =
                    sign-verifies c public_key pair (build_signed_range header body_nonce cipher)
                      sig (or_fail-made MintError.no_signature _ sb) in
                  let (lh, lb) =
                    frame_bounds header body_nonce cipher sig ln ls (rw sealed short) in
                  record {
                    dek = dek;
                    plain = body;
                    header = h;
                    frame = record {
                      header = header;
                      header_bytes = header;
                      body_nonce = body_nonce;
                      body_ciphertext = cipher;
                      signature = sig;
                    };
                    decodes = rw (← sealed) (
                        decode_envelope_wire-encode some header body_nonce cipher sig header ln ls
                          lh lb refl);
                    canonical = or_fail-made MintError.bad_header (header_bytes h) hb;
                    signed = verifies;
                    names = rw (← same_id) named;
                    policy = policy;
                    body = or_fail-made MintError.bad_body _ b;
                    opens =
                        laws.chacha_opens dek body_nonce header body cipher
                          (or_fail-made MintError.no_body_cipher _ cb);
                    unwraps = rw (← same_id) unwraps;
                  }

  -- With a creator key whose pair verifies, draws of the lengths asked for and ciphers that open what
  -- they sealed: an envelope below 2^32 bytes that is minted decodes, and its header is the canonical
  -- JSON of one that names the config id and the policy; its signature verifies under the creator's
  -- key over the signed range; each owner of a recipient key unwraps the same DEK from their entry;
  -- and that DEK opens the body, bound to the header's bytes, to the issuer body of the input.
  pub mint-Opens :
      (input : MintInput) (owns : List Bytes) (r : MintResult)
      → Owned k owns input.recipient_pub_keys
      → mint_issuer_envelope c k format_time marshal d now input ≡ made r
      → length r.envelope_bytes < 2 ^ 32
      → Opens k c marshal public_key owns input r
  unfolding mint_issuer_envelope
  mint-Opens input owns r owned e short =
      step (or_fail MintError.no_creator_key input.creator_key) _ e λ key _ e.
        step (demand (not (length input.recipient_pub_keys == 0)) MintError.no_recipients) _ e
          λ _ _ e. step (check_recipients 0 input.recipient_pub_keys) _ e λ _ _ e.
            step (demand (not (str_eq input.issuer_url [])) MintError.no_issuer_url) _ e λ _ _ e.
              step (chosen_id d input.config_id) _ e λ config_id _ e.
                step (demand (length config_id == 16) MintError.bad_config_id) _ e λ _ _ e.
                  step (or_fail MintError.not_p256 (compress_p256 key)) _ e λ creator_pub _ e.
                    step (or_fail MintError.no_dek d.dek) _ e λ dek dk e.
                      step (or_fail MintError.no_body_nonce d.body_nonce) _ e λ body_nonce n e.
                        step (wrap_all k d 0 config_id dek input.recipient_pub_keys) _ e
                          λ recipients w e.
                            seal-Opens input _ config_id dek body_nonce owns r e short
                              (drawn.nonce_length body_nonce
                                (or_fail-made MintError.no_body_nonce _ n))
                              refl refl
                              (wrap_all-Unwraps k laws d drawn 0 config_id dek owns
                                input.recipient_pub_keys recipients owned
                                (drawn.dek_IsBytes dek (or_fail-made MintError.no_dek _ dk)) w)
