-- ===== src/InstructionStorage/Completion.antt =====
-- src/instruction_storage/mod.rs: when a program counts as executed.
use the_swarm.Common.{
  ℕ, ◌+◌, ◌<◌, ◌≡◌, refl, ap, subst, ◌∙◌, inl, inr, Bool, true, false, some, List, [], ◌∷◌, arith,
  leb, if◌then◌else◌, length, Bool-cases,
}
use the_swarm.Common.Map.{nat_key, get, add, add_all, get-insert_self, length-add_all-le}
use the_swarm.Types.{Vid, PeerId}
use the_swarm.Processor.Program.{ProgramIdentifier, identifier_key}
use the_swarm.InstructionStorage.{
  ExecutionState, executing, finished, InstructionMemory, confirm, notify_executed,
}

abbrev pub as_number : Bool → ℕ
as_number true = 1
as_number false = 0

-- The notifications of several peers on one program, in turn, and how many of them finished it.
unfoldable pub notify_all :
    List PeerId → ProgramIdentifier → InstructionMemory → InstructionMemory × ℕ
notify_all [] program m = (m, 0)
notify_all (who ∷ peers) program m =
    let (m1, done) = notify_executed who program m in
    let (m2, n) = notify_all peers program m1 in (m2, as_number done + n)

-- What is known of a program after its notifications.
abbrev Known : InstructionMemory → ProgramIdentifier → ExecutionState → List Vid → Type 0
Known m program state ids =
    get m.currently_executed program ≡ some (record { state = state; affected_data_ids = ids })

add_zero_left : (n : ℕ) → 0 + n ≡ n
add_zero_left n = omega arith

confirm_enough :
    (t : ℕ) (seen : List PeerId) (who : PeerId)
    → leb t (length (add seen who)) ≡ true
    → confirm t who (executing seen) ≡ (finished, true)
unfolding confirm
confirm_enough t seen who e = rw e refl

confirm_few :
    (t : ℕ) (seen : List PeerId) (who : PeerId)
    → leb t (length (add seen who)) ≡ false
    → confirm t who (executing seen) ≡ (executing (add seen who), false)
unfolding confirm
confirm_few t seen who e = rw e refl

module _ (program : ProgramIdentifier) (ids : List Vid) where
  notify_executed-Known :
      (m : InstructionMemory) (who : PeerId) (state : ExecutionState)
      → Known m program state ids
      → (Known
          (notify_executed who program m).0
          program
          (confirm m.accept_threshold who state).0
          ids)
        × ((notify_executed who program m).0.accept_threshold ≡ m.accept_threshold)
        × ((notify_executed who program m).1 ≡ (confirm m.accept_threshold who state).1)
  unfolding notify_executed
  notify_executed-Known m who state known =
      (rw known (get-insert_self m.currently_executed program _), rw known refl, rw known refl)

  notify_all_finished :
      (peers : List PeerId) (m : InstructionMemory)
      → Known m program finished ids
      → (Known (notify_all peers program m).0 program finished ids)
        × ((notify_all peers program m).1 ≡ 0)
  unfolding notify_all confirm
  notify_all_finished [] m known = (known, refl)
  notify_all_finished (who ∷ peers) m known =
      let (next, _, done) = notify_executed-Known m who finished known in
      let (last, none_more) = notify_all_finished peers (notify_executed who program m).0 next in
      (last, ground (arith, done, none_more))

  -- The state and the number of reports that the peers seen so far call for.
  abbrev outcome : ℕ → List PeerId → ExecutionState × ℕ
  outcome threshold peers =
      if leb threshold (length peers) then (finished, 1) else (executing peers, 0)

  notify_all_executing :
      (t : ℕ) (peers seen : List PeerId) (m : InstructionMemory)
      → m.accept_threshold ≡ t
      → length seen < t
      → Known m program (executing seen) ids
      → (Known (notify_all peers program m).0 program (outcome t (add_all seen peers)).0 ids)
        × ((notify_all peers program m).1 ≡ (outcome t (add_all seen peers)).1)
  unfolding notify_all add_all
  notify_all_executing t [] seen m threshold few known =
      let open_still : leb t (length seen) ≡ false = ground arith in
      (rw open_still known, rw open_still refl)
  notify_all_executing t (who ∷ peers) seen m threshold few known =
      let (next, same, done) = notify_executed-Known m who (executing seen) known in
      elim (Bool-cases (leb t (length (add seen who)))) [
        | inl enough ↦
            let now_done = confirm_enough t seen who enough in
            let (last, none_more) = notify_all_finished peers (notify_executed who program m).0 (
              subst (λ s. Known (notify_executed who program m).0 program s ids)
                (ap (λ n. (confirm n who (executing seen)).0) threshold
                  ∙ ap (λ (r : ExecutionState × Bool). r.0) now_done)
                next) in
            let over : leb t (length (add_all (add seen who) peers)) ≡ true =
              ground (arith, length-add_all-le (add seen who) peers) in
            (rw over last, rw (over, none_more, done, threshold, now_done) refl)
        | inr few' ↦
            let not_done = confirm_few t seen who few' in
            let (last, count) =
              notify_all_executing t peers (add seen who) (notify_executed who program m).0
                (same ∙ threshold) (ground arith)
                (subst (λ s. Known (notify_executed who program m).0 program s ids)
                  (ap (λ n. (confirm n who (executing seen)).0) threshold
                    ∙ ap (λ (r : ExecutionState × Bool). r.0) not_done)
                  next) in
            let silent : (notify_executed who program m).1 ≡ false =
              done
              ∙ ap (λ n. (confirm n who (executing seen)).1) threshold
              ∙ ap (λ (r : ExecutionState × Bool). r.1) not_done in
            (
              last,
              ap (λ b. as_number b + (notify_all peers program (notify_executed who program m).0).1)
                    silent
                  ∙ add_zero_left _
                  ∙ count,
            )
      ]

  -- Where the threshold is positive, a program that has just started is finished exactly when
  -- the distinct peers that announced its execution are as many as the threshold, and then it is
  -- reported once, however often, in what order and by how many more peers it is announced.
  pub notify_all-finishes :
      (m : InstructionMemory) (peers : List PeerId)
      → 0 < m.accept_threshold
      → Known m program (executing []) ids
      → (Known
          (notify_all peers program m).0
          program
          (outcome m.accept_threshold (add_all [] peers)).0
          ids)
        × ((notify_all peers program m).1 ≡ (outcome m.accept_threshold (add_all [] peers)).1)
  notify_all-finishes m peers positive known =
      notify_all_executing m.accept_threshold peers [] m refl positive known
