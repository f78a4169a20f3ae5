-- ===== src/Replication/Signing.antt =====
-- The handlers of elections and of the state sign the datagrams that they send, and keep the
-- identifier and every property of the state.
use threaded_network_adder.Base.{
  pos, ◌≡◌, refl, true, false, [], ◌∷◌, ◌++◌, not, subst, ◌&&◌, ◌||◌, ℤ, ◌==ℤ◌, ltb_ℤ, leb_ℤ,
  if◌then◌else◌, if_intro, lock, unlock,
}
use threaded_network_adder.Net.{SockAddr}
use threaded_network_adder.Replication.Types.{MessageType, Message, Manager, Clock}
use threaded_network_adder.Replication.Table.{datagram, send_times}
use threaded_network_adder.Replication.Election.{
  later, start_election, handle_election_start, handle_election_response,
  handle_victory_declaration, response_message, ack_message, adopt_state, follow,
}
use threaded_network_adder.Replication.State.{handle_state_update}
use threaded_network_adder.Replication.Origin.{
  Holds, Carries, Signed, AllSigned, Signs, send_times-AllSigned, section-AllSigned, after-Signs,
  response_message-Signed, ack_message-Signed, start_election-Signs,
}

module _ (Q : ℤ → ℤ → Type 0) (z : Q (pos 0) (pos 0)) where
  pub handle_election_start-Signs :
      (rm : Manager) (q : Holds Q rm) (clock : Clock) (msg : Message) (sender : SockAddr)
      → Signs Q rm.my_id (handle_election_start rm clock msg sender)
  unfolding handle_election_start
  handle_election_start-Signs rm q clock msg sender =
      let answer = datagram sender (response_message rm (clock 0)) in
      let answered : AllSigned Q rm.my_id (lock ∷ (send_times 3 answer ++ unlock ∷ [])) =
        section-AllSigned Q z rm.my_id _ []
          (send_times-AllSigned Q z rm.my_id 3 answer (response_message-Signed Q z rm q (clock 0)))
          tt in
      if_intro (Signs Q rm.my_id) (rm.is_primary || ltb_ℤ msg.replica_id rm.my_id) _ _
        (if_intro (Signs Q rm.my_id) (not rm.is_primary && ltb_ℤ msg.replica_id rm.my_id) _ _
          (after-Signs Q z rm.my_id (lock ∷ (send_times 3 answer ++ unlock ∷ []))
            (start_election rm (later clock)) answered
            (start_election-Signs Q z rm q (later clock)))
          (refl, (q, answered)))
        (refl, (q, (tt, (tt, tt))))

  pub handle_election_response-Signs :
      (rm : Manager) (q : Holds Q rm) (clock : Clock) (msg : Message)
      → Signs Q rm.my_id (handle_election_response rm clock msg)
  unfolding handle_election_response
  handle_election_response-Signs rm q clock msg =
      if_intro (λ (m : Manager). Signs Q rm.my_id (m, lock ∷ unlock ∷ []))
        (rm.election_in_progress && ltb_ℤ rm.my_id msg.replica_id) _ _ (refl, (q, (tt, (tt, tt))))
        (refl, (q, (tt, (tt, tt))))

  adopt_state-my_id : (rm : Manager) (msg : Message) → (adopt_state rm msg).my_id ≡ rm.my_id
  unfolding adopt_state
  adopt_state-my_id rm msg =
      if_intro (λ (m : Manager). m.my_id ≡ rm.my_id) (leb_ℤ rm.last_seqn msg.last_seqn) _ _ refl
        refl

  follow-my_id :
      (rm : Manager) (clock : Clock) (msg : Message) (sender : SockAddr)
      → (follow rm clock msg sender).my_id ≡ rm.my_id
  unfolding follow
  follow-my_id rm clock msg sender = adopt_state-my_id rm msg

  adopt_state-Holds :
      (rm : Manager) (q : Holds Q rm) (msg : Message) (c : Carries Q msg)
      → Holds Q (adopt_state rm msg)
  unfolding adopt_state
  adopt_state-Holds rm q msg c = if_intro (Holds Q) (leb_ℤ rm.last_seqn msg.last_seqn) _ _ c q

  follow-Holds :
      (rm : Manager) (q : Holds Q rm) (clock : Clock) (msg : Message) (c : Carries Q msg)
      (sender : SockAddr)
      → Holds Q (follow rm clock msg sender)
  unfolding follow
  follow-Holds rm q clock msg c sender = adopt_state-Holds rm q msg c

  -- An acknowledgement by a manager with the same identifier.
  ack-Signed :
      (i : ℤ) (t : MessageType) (rm : Manager) (q : Holds Q rm) (now : ℤ)
      → rm.my_id ≡ i
      → Signed Q i (ack_message t rm now)
  ack-Signed i t rm q now e =
      subst (λ (j : ℤ). Signed Q j (ack_message t rm now)) e (ack_message-Signed Q z t rm q now)

  pub handle_victory_declaration-Signs :
      (rm : Manager) (q : Holds Q rm) (clock : Clock) (msg : Message) (c : Carries Q msg)
      (sender : SockAddr)
      → Signs Q rm.my_id (handle_victory_declaration rm clock msg sender)
  unfolding handle_victory_declaration
  handle_victory_declaration-Signs rm q clock msg c sender =
      let same = follow-my_id rm clock msg sender in
      let holds = follow-Holds rm q clock msg c sender in
      let ack =
        ack-Signed rm.my_id MessageType.victory_ack (follow rm clock msg sender) holds (clock 1)
          same in
      if_intro (Signs Q rm.my_id) (ltb_ℤ rm.my_id msg.replica_id) _ _
        (
          same,
          (
            holds,
            section-AllSigned Q z rm.my_id _ [] (send_times-AllSigned Q z rm.my_id 3 _ ack) tt,
          ),
        )
        (refl, (q, (tt, (tt, tt))))

  pub handle_state_update-Signs :
      (rm : Manager) (q : Holds Q rm) (clock : Clock) (msg : Message) (c : Carries Q msg)
      (sender : SockAddr)
      → Signs Q rm.my_id (handle_state_update rm clock msg sender)
  unfolding handle_state_update
  handle_state_update-Signs rm q clock msg c sender =
      let updated : Manager =
        if leb_ℤ rm.last_seqn msg.last_seqn
        then record (adopt_state rm msg) {
          election_in_progress = false;
          received_initial_state = true;
        }
        else rm in
      let same : updated.my_id ≡ rm.my_id =
        if_intro (λ (m : Manager). m.my_id ≡ rm.my_id) (leb_ℤ rm.last_seqn msg.last_seqn) _ rm
          (adopt_state-my_id rm msg) refl in
      let holds : Holds Q updated =
        if_intro (Holds Q) (leb_ℤ rm.last_seqn msg.last_seqn) _ rm (adopt_state-Holds rm q msg c)
          q in
      if_intro (Signs Q rm.my_id) (msg.replica_id ==ℤ rm.primary_id) _ _
        (
          same,
          (
            holds,
            (
              tt,
              (ack-Signed rm.my_id MessageType.state_ack updated holds (clock 0) same, (tt, tt)),
            ),
          ),
        )
        (refl, (q, (tt, (tt, tt))))
