-- ===== src/ClientIp/Spoofing.antt =====
-- `clientIP` of redeem.go and the header that a client can write.
use npvtunnel_creator_server.Base.{
  ℕ, ◌≡◌, ◌≢◌, refl, Bool, true, false, List, [], ◌∷◌, ◌++◌, Text, if◌then◌else◌, str_eq,
  str_eq_iff, any, length, reverse-snoc, ◌==◌, arith,
}
use npvtunnel_creator_server.Policy.{TextOps}
use npvtunnel_creator_server.ClientIp.{
  Addresses, ip_in_any, comma, onto_first, split_comma, first_untrusted, peer, client_ip,
}

split_comma-cons : (s : Text) → (p : Text) × (ps : List Text) × (split_comma s ≡ p ∷ ps)
unfolding split_comma
split_comma-cons [] = ([], [], refl)
split_comma-cons (c ∷ cs) =
    let (p, ps, is) = split_comma-cons cs in pick c (split_comma cs) p ps is (c == comma)
  where
    pick :
        (c : ℕ) (rest : List Text) (p : Text) (ps : List Text)
        → rest ≡ p ∷ ps
        → (b : Bool)
        → (q : Text) × (qs : List Text) × ((if b then [] ∷ rest else onto_first c rest) ≡ q ∷ qs)
    pick c rest p ps is true = ([], rest, refl)
    pick c rest p ps is false = (c ∷ p, ps, rw is refl)

split_comma-append : (s t : Text) → split_comma (s ++ comma ∷ t) ≡ split_comma s ++ split_comma t
unfolding split_comma
split_comma-append [] t = refl
split_comma-append (c ∷ cs) t =
    let (p, ps, is) = split_comma-cons cs in ground (arith, split_comma-append cs t, is)

split_comma-single : (t : Text) → any (λ c. c == comma) t ≡ false → split_comma t ≡ t ∷ []
unfolding split_comma
split_comma-single [] h = refl
split_comma-single (c ∷ cs) h = ground (arith, split_comma-single cs)

not_empty : (s t : Text) (c : ℕ) → str_eq (s ++ c ∷ t) [] ≡ false
unfolding str_eq
not_empty [] t c = refl
not_empty (x ∷ s) t c = refl

not_zero : (n : ℕ) → n ≢ 0 → (n == 0) ≡ false
not_zero n h = ground (arith, h)

-- A peer that is no trusted proxy is its own key, whatever the header says.
pub client_ip-direct :
    (ops : TextOps) (net : Addresses) (remote_addr xff : Text) (trusted : List Text)
    → ip_in_any net (peer net remote_addr) trusted ≡ false
    → client_ip ops net remote_addr xff trusted ≡ peer net remote_addr
unfolding client_ip
client_ip-direct ops net remote_addr xff trusted out = ground (arith, out)

-- Behind a trusted proxy that appends the address of its client to the header, that address is the
-- key, whatever the client wrote there before, unless it is itself a trusted proxy's.
pub client_ip-proxied :
    (ops : TextOps) (net : Addresses) (remote_addr : Text) (trusted : List Text)
    (forged client : Text)
    → length trusted ≢ 0
    → ip_in_any net (peer net remote_addr) trusted ≡ true
    → any (λ c. c == comma) client ≡ false
    → ops.trim_space client ≢ []
    → ip_in_any net (ops.trim_space client) trusted ≡ false
    → client_ip ops net remote_addr (forged ++ comma ∷ client) trusted ≡ ops.trim_space client
unfolding client_ip first_untrusted
client_ip-proxied ops net remote_addr trusted forged client some_trusted inside plain full outside =
    let parts : split_comma (forged ++ comma ∷ client) ≡ split_comma forged ++ client ∷ [] =
      rw (split_comma-append forged client, split_comma-single client plain) refl in
    let given : str_eq (ops.trim_space client) [] ≡ false =
      ground (arith, full, str_eq_iff (ops.trim_space client) []) in
    rw
      (
        parts,
        reverse-snoc client (split_comma forged),
        inside,
        not_empty forged client comma,
        not_zero (length trusted) some_trusted,
        given,
        outside,
      )
      refl
