-- ===== src/Noize/Write/Once.antt =====
-- The sequences that `ObfuscateWrite` starts: each at most once for an address.
use vwarp.Prelude.{
  ℕ, ◌+◌, ◌≡◌, refl, ap, ◌∙◌, Bool, true, false, ◌&&◌, ◌||◌, Bool-cases, inl, inr, List, [], ◌∷◌,
  ◌++◌, Option, none, some, arith, length, ltb, if◌then◌else◌,
}
use vwarp.Text.{text_eq, text_eq_iff}
use vwarp.Noize.{NoizeConfig}
use vwarp.Noize.Packet.{
  detect_quic_packet_type, one_rtt, handshake, zero_rtt, retry, initial, version_negotiation,
  unknown, QuicPacketType,
}
use vwarp.Noize.Write.{
  HandshakeState, Noize, Write, Task, pre_handshake, post_handshake, send_fragments, new, put,
  first_packet, after_handshake, entered, finished, obfuscate_write, obfuscate_all, resume,
  is_one_rtt, is_initial, must_fragment, send,
}

abbrev pub bit : Bool → ℕ
bit b = if b then 1 else 0

-- How often a task list starts each sequence for an address.
abbrev pub pre_count : List ℕ → List Task → ℕ
pre_count a [] = 0
pre_count a (pre_handshake b ∷ tasks) = bit (text_eq a b) + pre_count a tasks
pre_count a (post_handshake b ∷ tasks) = pre_count a tasks
pre_count a (send_fragments b rest ∷ tasks) = pre_count a tasks

abbrev pub post_count : List ℕ → List Task → ℕ
post_count a [] = 0
post_count a (pre_handshake b ∷ tasks) = post_count a tasks
post_count a (post_handshake b ∷ tasks) = bit (text_eq a b) + post_count a tasks
post_count a (send_fragments b rest ∷ tasks) = post_count a tasks

pre_count-append :
    (a : List ℕ) (t u : List Task) → pre_count a (t ++ u) ≡ pre_count a t + pre_count a u
pre_count-append a [] u = omega arith
pre_count-append a (pre_handshake b ∷ t) u = omega (arith, pre_count-append a t u)
pre_count-append a (post_handshake b ∷ t) u = pre_count-append a t u
pre_count-append a (send_fragments b rest ∷ t) u = pre_count-append a t u

post_count-append :
    (a : List ℕ) (t u : List Task) → post_count a (t ++ u) ≡ post_count a t + post_count a u
post_count-append a [] u = omega arith
post_count-append a (pre_handshake b ∷ t) u = post_count-append a t u
post_count-append a (post_handshake b ∷ t) u = omega (arith, post_count-append a t u)
post_count-append a (send_fragments b rest ∷ t) u = post_count-append a t u

is_some : Option HandshakeState → Bool
is_some none = false
is_some (some h) = true

is_done : Option HandshakeState → Bool
is_done none = false
is_done (some h) = h.post_sent

-- What a write and its tasks do to the state of one address: the state gets known by a packet, and a
-- sequence is started exactly where its flag changes.
record Step (a : List ℕ) (packet one_rtt : Bool) (n n' : Noize) (tasks : List Task) : Type 0 where
  known : is_some (n'.hs_state a) ≡ (is_some (n.hs_state a) || packet)
  done : is_done (n'.hs_state a) ≡ (is_done (n.hs_state a) || one_rtt)
  pre : pre_count a tasks + bit (is_some (n.hs_state a)) ≡ bit (is_some (n'.hs_state a))
  post : post_count a tasks + bit (is_done (n.hs_state a)) ≡ bit (is_done (n'.hs_state a))

entered-Step :
    (o : Option HandshakeState) (a addr : List ℕ) (n : Noize)
    → n.hs_state addr ≡ o
    → Step a (text_eq a addr) false n (entered o addr n).0 (entered o addr n).1
unfolding entered put is_some is_done
entered-Step none a addr n e =
    let here : text_eq a addr ≡ true → n.hs_state a ≡ none =
      λ t. ap n.hs_state ((text_eq_iff a addr).0 t) ∙ e in
    record {
      known = ground (arith, here);
      done = ground (arith, here);
      pre = ground (arith, here);
      post = ground (arith, here);
    }
entered-Step (some h) a addr n e =
    let here : text_eq a addr ≡ true → n.hs_state a ≡ some h =
      λ t. ap n.hs_state ((text_eq_iff a addr).0 t) ∙ e in
    record {
      known = ground (arith, here);
      done = ground (arith, here);
      pre = ground (arith, here);
      post = ground (arith, here);
    }

finished-Step :
    (o : Option HandshakeState) (h : HandshakeState) (a addr : List ℕ) (n : Noize)
    → n.hs_state addr ≡ o
    → o ≡ some h
    → Step a false (text_eq a addr) n (finished o addr n).0 (finished o addr n).1
unfolding finished put is_some is_done
finished-Step none h a addr n e k = ground (arith, k)
finished-Step (some h) h' a addr n e k =
    let here : text_eq a addr ≡ true → n.hs_state a ≡ some h =
      λ t. ap n.hs_state ((text_eq_iff a addr).0 t) ∙ e in
    record {
      known = ground (arith, here);
      done = ground (arith, here);
      pre = ground (arith, here);
      post = ground (arith, here);
    }

skip-Step : (a : List ℕ) (n : Noize) → Step a false false n n []
skip-Step a n = record {
  known = ground arith;
  done = ground arith;
  pre = omega arith;
  post = omega arith;
}

-- One step behind the other.
both-Step :
    {a : List ℕ} {p p' q q' : Bool} {n n' n'' : Noize} {t u : List Task}
    → Step a p q n n' t
    → Step a p' q' n' n'' u
    → Step a (p || p') (q || q') n n'' (t ++ u)
both-Step {a} {t = t} {u = u} s s' = record {
  known = ground (arith, s.known, s'.known);
  done = ground (arith, s.done, s'.done);
  pre = omega (arith, s.pre, s'.pre, pre_count-append a t u);
  post = omega (arith, s.post, s'.post, post_count-append a t u);
}

-- What a write is for one address: a packet that is not empty, and one in 1-RTT form.
abbrev pub reaches : List ℕ → Write → Bool
reaches a w = ltb 0 (length w.packet) && text_eq a w.addr

abbrev pub finishes : List ℕ → Write → Bool
finishes a w = is_one_rtt (detect_quic_packet_type w.packet) && text_eq a w.addr

fragments-Step :
    (connected : Bool) (a : List ℕ) (n : Noize) (addr : List ℕ) (rest : List (List ℕ))
    → Step a false false n n (if connected then send_fragments addr rest ∷ [] else [])
fragments-Step true a n addr rest = record {
  known = ground arith;
  done = ground arith;
  pre = omega arith;
  post = omega arith;
}
fragments-Step false a n addr rest = skip-Step a n

send-Step :
    (t : QuicPacketType) (h : HandshakeState) (a : List ℕ) (n : Noize) (w : Write)
    → n.hs_state w.addr ≡ some h
    → Step a false (is_one_rtt t && text_eq a w.addr) n (send n t w).0 (send n t w).1
unfolding send is_initial is_one_rtt after_handshake
send-Step initial h a n w e = elim (Bool-cases (must_fragment n.config w.packet)) [
  | inl m ↦ rw m (fragments-Step n.connected a n w.addr _)
  | inr m ↦ rw m (skip-Step a n)
]
send-Step one_rtt h a n w e = finished-Step (n.hs_state w.addr) h a w.addr n refl e
send-Step handshake h a n w e = skip-Step a n
send-Step zero_rtt h a n w e = skip-Step a n
send-Step retry h a n w e = skip-Step a n
send-Step version_negotiation h a n w e = skip-Step a n
send-Step unknown h a n w e = skip-Step a n

entered-known :
    (o : Option HandshakeState) (addr : List ℕ) (n : Noize)
    → n.hs_state addr ≡ o
    → (h : HandshakeState) × ((entered o addr n).0.hs_state addr ≡ some h)
unfolding entered put
entered-known none addr n e = (
  record { pre_sent = false; during_sent = false; post_sent = false; initial_seen = true },
  rw ((text_eq_iff addr addr).1 refl) refl,
)
entered-known (some h) addr n e = (h, e)

or_false : (b : Bool) → (b || false) ≡ b
or_false true = refl
or_false false = refl

empty_finishes :
    (packet : List ℕ)
    → ltb 0 (length packet) ≡ false
    → is_one_rtt (detect_quic_packet_type packet) ≡ false
unfolding detect_quic_packet_type is_one_rtt
empty_finishes [] h = refl
empty_finishes (b ∷ packet) h = ground arith

obfuscate_write-Step :
    (a : List ℕ) (n : Noize) (w : Write)
    → Step a (reaches a w) (finishes a w) n (obfuscate_write n w).0 (obfuscate_write n w).1
unfolding obfuscate_write first_packet
obfuscate_write-Step a n w = elim (Bool-cases (ltb 0 (length w.packet))) [
  | inl e ↦
      (let (h, some_state) = entered-known (n.hs_state w.addr) w.addr n refl in
        let seen = entered-Step (n.hs_state w.addr) a w.addr n refl in
        let sent =
          send-Step (detect_quic_packet_type w.packet) h a (first_packet w.addr n).0 w some_state in
        let whole = both-Step seen sent in rw e (rw (or_false (text_eq a w.addr)) at whole))
  | inr e ↦ rw (e, empty_finishes w.packet e) (skip-Step a n)
]

abbrev pub any : (Write → Bool) → List Write → Bool
any test [] = false
any test (w ∷ ws) = test w || any test ws

-- The writes that are done, in front of those that a panic leaves.
Done : List ℕ → Noize → List Write → Noize × List Task × List Write → Type 0
Done a n ws r =
    (done : List Write) × (ws ≡ done ++ r.2)
    × Step a (any (reaches a) done) (any (finishes a) done) n r.0 r.1

resume-Done :
    (o : Option (List ℕ)) (a : List ℕ) (n n' : Noize) (w : Write) (ws : List Write)
    (tasks : List Task) (rest : Noize × List Task × List Write)
    → Step a (reaches a w) (finishes a w) n n' tasks
    → Done a n' ws rest
    → Done a n (w ∷ ws) (resume o n' tasks ws rest)
unfolding resume Done
resume-Done none a n n' w ws tasks rest one more =
    (w ∷ [], refl, rw (or_false (reaches a w), or_false (finishes a w)) one)
resume-Done (some packet) a n n' w ws tasks rest one (done, split, more) =
    (w ∷ done, ap (λ l. w ∷ l) split, both-Step one more)

obfuscate_all-Done : (a : List ℕ) (ws : List Write) (n : Noize) → Done a n ws (obfuscate_all n ws)
unfolding obfuscate_all Done
obfuscate_all-Done a [] n = ([], refl, skip-Step a n)
obfuscate_all-Done a (w ∷ ws) n =
    resume-Done (obfuscate_write n w).2 a n _ w ws _ _ (obfuscate_write-Step a n w)
      (obfuscate_all-Done a ws (obfuscate_write n w).0)

-- For any writes on a fresh `Noize` and every address: the writes up to a panic, if there is one,
-- are a front of the given writes, and they start the pre-handshake sequence for the address once if
-- one of them is a packet to it that is not empty, and else never; and the post-handshake sequence
-- once if one of them is a packet to it in 1-RTT form, and else never.
pub obfuscate_all-once :
    (c : NoizeConfig) (ws : List Write) (a : List ℕ)
    → (done : List Write) × (ws ≡ done ++ (obfuscate_all (new c) ws).2)
      × (pre_count a (obfuscate_all (new c) ws).1 ≡ bit (any (reaches a) done))
      × (post_count a (obfuscate_all (new c) ws).1 ≡ bit (any (finishes a) done))
unfolding Done new is_some is_done
obfuscate_all-once c ws a =
    let (done, split, step) = obfuscate_all-Done a ws (new c) in
    (done, split, ground (arith, step.known, step.pre), ground (arith, step.done, step.post))
