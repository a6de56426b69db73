-- ===== src/Noize/Write/Total.antt =====
-- `ObfuscateWrite` under a configuration that `ValidateNoizeConfig` accepts.
use vwarp.Prelude.{
  ℕ, ◌≡◌, refl, ◌∙◌, ◌&&◌, Bool-cases, inl, inr, List, [], ◌∷◌, Option, none, some, length, ltb,
}
use vwarp.Noize.{NoizeConfig}
use vwarp.Noize.Packet.{QuicPacketType, detect_quic_packet_type, fragment_initial_packet}
use vwarp.Noize.Validator.{validate_noize_config}
use vwarp.Noize.Validator.Sound.{validate_noize_config-sizes}
use vwarp.Noize.Write.{
  HandshakeState, Noize, Write, new, put, first_packet, after_handshake, entered, finished,
  obfuscate_write, obfuscate_all, resume, is_one_rtt, is_initial, must_fragment, wrapped, dressed,
  send,
}

entered-config :
    (o : Option HandshakeState) (addr : List ℕ) (n : Noize) → (entered o addr n).0.config ≡ n.config
unfolding entered put
entered-config none addr n = refl
entered-config (some h) addr n = refl

finished-config :
    (o : Option HandshakeState) (addr : List ℕ) (n : Noize)
    → (finished o addr n).0.config ≡ n.config
unfolding finished put
finished-config none addr n = refl
finished-config (some h) addr n = elim (Bool-cases h.post_sent) [
  | inl e ↦ rw e refl
  | inr e ↦ rw e refl
]

dressed_total :
    (c : NoizeConfig) (w : Write)
    → validate_noize_config c ≡ none
    → (p : List ℕ) × (dressed c w ≡ some p)
unfolding dressed
dressed_total c w valid =
    let (padded, made, front, longer, limit) =
      (validate_noize_config-sizes c w.packet w.padding_draw 0 w.padding_noise valid).0 in
    (wrapped c w padded, rw made refl)

send_total :
    (n : Noize) (t : QuicPacketType) (w : Write)
    → validate_noize_config n.config ≡ none
    → ((send n t w).0.config ≡ n.config) × (p : List ℕ) × ((send n t w).2 ≡ some p)
unfolding send after_handshake
send_total n t w valid =
    let (p, made) = dressed_total n.config w valid in
    elim (Bool-cases (is_initial t && must_fragment n.config w.packet)) [
      | inl e ↦ (
        rw e refl,
        (fragment_initial_packet n.config.fragment_size n.connected w.packet).0,
        rw e refl,
      )
      | inr e ↦ (elim (Bool-cases (is_one_rtt t)) [
        | inl k ↦ rw (e, k) (finished-config (n.hs_state w.addr) w.addr n, p, made)
        | inr k ↦ rw (e, k) (refl, p, made)
      ])
    ]

obfuscate_write_total :
    (n : Noize) (w : Write)
    → validate_noize_config n.config ≡ none
    → ((obfuscate_write n w).0.config ≡ n.config)
      × (p : List ℕ) × ((obfuscate_write n w).2 ≡ some p)
unfolding obfuscate_write first_packet
obfuscate_write_total n w valid =
    let kept = entered-config (n.hs_state w.addr) w.addr n in
    let (kept', p, sent) =
      send_total (first_packet w.addr n).0 (detect_quic_packet_type w.packet) w (rw kept valid) in
    elim (Bool-cases (ltb 0 (length w.packet))) [
      | inl e ↦ rw e (kept' ∙ kept, p, sent)
      | inr e ↦ rw e (refl, w.packet, refl)
    ]

all_done :
    (ws : List Write) (n : Noize)
    → validate_noize_config n.config ≡ none
    → (obfuscate_all n ws).2 ≡ []
unfolding obfuscate_all resume
all_done [] n valid = refl
all_done (w ∷ ws) n valid =
    let (kept, p, sent) = obfuscate_write_total n w valid in
    rw sent (all_done ws (obfuscate_write n w).0 (rw kept valid))

-- With a configuration that `ValidateNoizeConfig` accepts, no sequence of writes on a fresh `Noize`
-- panics: none is left undone.
pub obfuscate_all-valid :
    (c : NoizeConfig) (ws : List Write)
    → validate_noize_config c ≡ none
    → (obfuscate_all (new c) ws).2 ≡ []
unfolding new
obfuscate_all-valid c ws valid = all_done ws (new c) valid
