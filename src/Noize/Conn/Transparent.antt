-- ===== src/Noize/Conn/Transparent.antt =====
-- When the wrapper of masque/noize/conn.go passes packets on as they are.
use vwarp.Prelude.{ℕ, false, ◌≡◌, refl, List, [], ◌∷◌, Option, some, ap}
use vwarp.Noize.Write.{Write, new}
use vwarp.Noize.Conn.{
  NoizeUdpConn, write_to_udp, Call, write, enable, disable, set_config, call, calls,
}

-- The packets of the writes among some calls.
unfoldable pub written : List Call → List (Option (List ℕ))
written [] = []
written (write w ∷ rest) = some w.packet ∷ written rest
written (enable ∷ rest) = written rest
written (disable ∷ rest) = written rest
written (set_config c ∷ rest) = written rest

-- No call enables the obfuscation again.
unfoldable pub StaysOff : List Call → Type 0
StaysOff [] = Unit
StaysOff (write w ∷ rest) = StaysOff rest
StaysOff (enable ∷ rest) = ⊥
StaysOff (disable ∷ rest) = StaysOff rest
StaysOff (set_config c ∷ rest) = StaysOff rest

write_to_udp-disabled :
    (conn : NoizeUdpConn)
    → (w : Write) → conn.enabled ≡ false
    → write_to_udp conn w ≡ (conn, [], some w.packet)
unfolding write_to_udp
write_to_udp-disabled conn w off = simp off

-- Once the obfuscation is disabled, and until it is enabled, also under new configurations: every
-- packet is sent as it is, and no goroutine is started.
pub calls-disabled :
    (conn : NoizeUdpConn)
    → (rest : List Call) → conn.enabled ≡ false
    → StaysOff rest
    → ((calls conn rest).1 ≡ []) × ((calls conn rest).2 ≡ written rest)
unfolding calls call write_to_udp written StaysOff
calls-disabled conn [] off stays = (refl, refl)
calls-disabled conn (write w ∷ rest) off stays =
    let (quiet, same) = calls-disabled conn rest off stays in
    rw (write_to_udp-disabled conn w off) (quiet, ap (λ l. some w.packet ∷ l) same)
calls-disabled conn (enable ∷ rest) off stays = elim stays [ ]
calls-disabled conn (disable ∷ rest) off stays =
    calls-disabled (record conn { enabled = false }) rest refl stays
calls-disabled conn (set_config c ∷ rest) off stays =
    calls-disabled (record conn { noize = new c }) rest off stays
