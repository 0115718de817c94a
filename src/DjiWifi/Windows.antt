-- ===== src/DjiWifi/Windows.antt =====
-- protocol/dji_wifi.py: the half-window order of peer sequences, and acknowledgements.
use openframetap.DjiWifi.Sequencer.{Sequencer, observe_peer_sequence}
use openframetap.DjiWifi.Flow.{
  processed, operator_peer_sequence, acknowledgement_header, acknowledge, FlowStatus,
  encode_operator_flow_ack, word_difference,
}
use openframetap.Prelude.{
  refl, ◌∙◌, [], Result-cases, ◌∷◌, not, ◌++◌, leb→le, subst, le→leb, Bool, ==_iff, ap, sym, inl,
  inr, Bool-cases, arith, leb, ◌||◌, ◌==◌, ◌%◌, drop, take, false, ◌<◌, get_or, true, length, ok,
  ◌≡◌, ◌≤◌, List, ℕ,
}
use openframetap.Bytes.{from-to_little, two_little, to_little, from_little}
use openframetap.DjiWifi.Header.{encode_basic-Written, Written, basic_wire}
use openframetap.DjiWifi.{encode_basic, xor_all}

-- A sequence that is level or behind is refused.
refused :
    (s : Sequencer) (sequence : ℕ)
    → leb sequence 0xFFFF ≡ true
    → (word_difference sequence s.peer_sequence == 0
        || leb 0x8000 (word_difference sequence s.peer_sequence))
      ≡ true
    → observe_peer_sequence s sequence ≡ (s, ok false)
unfolding observe_peer_sequence
refused s sequence word stale = rw (word, stale)

or_true : (a b : Bool) → b ≡ true → (a || b) ≡ true
or_true true b e = refl
or_true false b e = e

behind :
    (a b : ℕ)
    → a ≤ 0xFFFF
    → b ≤ 0xFFFF
    → 0 < word_difference a b
    → word_difference a b < 0x8000
    → (word_difference b a == 0 || leb 0x8000 (word_difference b a)) ≡ true
behind a b ha hb ahead half = or_true _ _ (le→leb 0x8000 (word_difference b a) (omega arith))

level : (a : ℕ) → a ≤ 0xFFFF → (word_difference a a == 0 || leb 0x8000 (word_difference a a)) ≡ true
level a h = rw ((==_iff (word_difference a a) 0).1 (omega arith))

-- A peer sequence that was taken as new is ahead of the old one by less than half of all words. The
-- old one, when it comes again, is then refused, and so is the same one: late duplicates do not
-- move the sequence back. The sequences are words.
pub observe-forward :
    (s s' : Sequencer) (sequence : ℕ)
    → s.peer_sequence ≤ 0xFFFF
    → observe_peer_sequence s sequence ≡ (s', ok true)
    → (s'.peer_sequence ≡ sequence)
      × (0 < word_difference sequence s.peer_sequence)
      × (word_difference sequence s.peer_sequence < 0x8000)
      × (observe_peer_sequence s' s.peer_sequence ≡ (s', ok false))
      × (observe_peer_sequence s' sequence ≡ (s', ok false))
unfolding observe_peer_sequence
observe-forward s s' sequence w e = elim (Bool-cases (leb sequence 65535)) [
  | inr large ↦ cc (rw large at e)
  | inl word ↦
      let d = word_difference sequence s.peer_sequence in
      elim (Bool-cases (d == 0 || leb 0x8000 d)) [
        | inl stale ↦ cc (rw (word, stale) at e)
        | inr fresh ↦
            let same : record s { peer_sequence = sequence } ≡ s' = cc (rw (word, fresh) at e) in
            let (some_way, half) = ahead d fresh in
            (
              sym (ap (λ (t : Sequencer). t.peer_sequence) same),
              some_way,
              half,
              subst (λ t. observe_peer_sequence t s.peer_sequence ≡ (t, ok false)) same
                  (refused (record s { peer_sequence = sequence }) s.peer_sequence (le→leb _ _ w)
                    (behind sequence s.peer_sequence (leb→le _ _ word) w some_way half)),
              subst (λ t. observe_peer_sequence t sequence ≡ (t, ok false)) same
                  (refused (record s { peer_sequence = sequence }) sequence word
                    (level sequence (leb→le _ _ word))),
            )
      ]
]
  where
    ahead : (d : ℕ) → (d == 0 || leb 0x8000 d) ≡ false → (0 < d) × (d < 0x8000)
    ahead d h = ground arith

-- The octets of an acknowledgement.
abbrev pub acknowledgement : FlowStatus → ℕ → List ℕ
acknowledgement s last_sent =
    basic_wire (acknowledgement_header s)
    ++ processed s.range_1.end
    ++ processed s.range_2.end
    ++ (to_little 2 s.range_3.end ++ to_little 2 last_sent ++ 0 ∷ 0 ∷ 0 ∷ 0 ∷ [])
    ++ 0 ∷ 0 ∷ []

abbrev pub Acknowledges : FlowStatus → ℕ → List ℕ → Type 0
Acknowledges s last_sent raw =
    (s.range_3.start ≡ s.range_3.end)
    × (last_sent ≤ 0xFFFF)
    × (length raw ≡ 34)
    × (get_or raw 6 0 ≡ 4)
    × (from_little (take 2 (drop 2 raw)) ≡ s.basic.session_id)
    × (from_little (take 2 (drop 24 raw)) ≡ s.range_3.end % 65536)
    × (from_little (take 2 (drop 26 raw)) ≡ last_sent)
    × (word_difference last_sent s.range_3.end < 0x8000)
    × (word_difference last_sent s.range_3.end % 8 ≡ 0)

-- An acknowledgement is written only for an unambiguous status. It has thirty-four octets, its
-- header names the operator's type and the session of the status, it carries the two ends of the
-- window, and the number of sequences that it leaves outstanding is a multiple of eight below half
-- of all words.
pub acknowledge-window :
    (s : FlowStatus) (last_sent : ℕ) (raw : List ℕ)
    → encode_operator_flow_ack s last_sent ≡ ok raw
    → (s.range_3.start ≡ s.range_3.end)
      × (last_sent ≤ 0xFFFF)
      × (length raw ≡ 34)
      × (get_or raw 6 0 ≡ 4)
      × (from_little (take 2 (drop 2 raw)) ≡ s.basic.session_id)
      × (from_little (take 2 (drop 24 raw)) ≡ s.range_3.end % 65536)
      × (from_little (take 2 (drop 26 raw)) ≡ last_sent)
      × (word_difference last_sent s.range_3.end < 0x8000)
      × (word_difference last_sent s.range_3.end % 8 ≡ 0)
unfolding encode_operator_flow_ack acknowledge operator_peer_sequence to_little xor_all
acknowledge-window s last_sent raw e =
    let last = s.range_3.end in
    elim (Bool-cases (s.range_3.start == last)) [
      | inr apart ↦ cc (rw apart at e)
      | inl equal ↦ elim (Bool-cases (leb last_sent 0xFFFF)) [
        | inr large ↦ cc (rw (equal, large) at e)
        | inl word ↦
            let d = word_difference last_sent last in
            elim (Bool-cases (leb 0x8000 d || not (d % 8 == 0))) [
              | inl bad ↦ cc (rw (equal, word, bad) at e)
              | inr good ↦ elim (Result-cases (encode_basic (acknowledgement_header s))) [
                | inr (bad, failed) ↦ cc (rw (equal, word, good, failed) at e)
                | inl (header, done) ↦
                    let w : Written (acknowledgement_header s) header =
                      encode_basic-Written _ _ done in
                    let image : acknowledgement s last_sent ≡ raw =
                      cc (rw (equal, word, good, done) at e, w.image) in
                    let (half, eighth) = window_of d good in
                    subst (λ t. Acknowledges s last_sent t) image
                      (
                        (==_iff _ _).0 equal,
                        leb→le _ _ word,
                        refl,
                        refl,
                        from-to_little s.basic.session_id (omega (arith, w.ranges)),
                        two_little _ _ ∙ omega arith,
                        from-to_little last_sent (omega (arith, leb→le _ _ word)),
                        half,
                        eighth,
                      )
              ]
            ]
      ]
    ]
  where
    window_of : (d : ℕ) → (leb 0x8000 d || not (d % 8 == 0)) ≡ false → (d < 0x8000) × (d % 8 ≡ 0)
    window_of d h = ground arith
