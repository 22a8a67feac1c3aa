-- ===== src/Contract/Lifecycle.antt =====
-- The routes that move a contract keep to its life cycle, whatever other requests do between their
-- reads and their guarded writes, as long as those keep to it too.
use a2a_comms.Common.{
  ℕ, String, ◌≡◌, Bool, true, false, Option, some, List, [], ◌∷◌, arith, eq_iff, if◌then◌else◌,
  none,
}
use a2a_comms.Contract.Store.{Action, gets, modify, require, ◌>>=◌, select_contract, Store, Caller}
use a2a_comms.Contract.{Contract, ErrorCode, not_found}
use a2a_comms.Contract.History.{
  Same-refl, Follows-Same, Keeps-pure, Keeps-gets, Keeps-require, Keeps-if, Keeps-guard,
  Keeps-modify, Keeps-update_participant, bind-Follows, Keeps-bind, Follows, Same, Keeps,
}
use a2a_comms.Contract.Policy.{ContractMutationAction}
use a2a_comms.Contract.Routes.{
  get_participant, check_policy, auto_close_if_expired, activate_if_all_accepted, cancel, accept,
  reject, announce_accepted, announce_rejected, tell_proposer,
}
use a2a_comms.Contract.Close.{CloseBody, close}
use a2a_comms.Contract.Writes.{
  Keeps-select, deliver-Same, emit_Same, auto_close-Follows, Keeps-audit, enforce-Keeps,
  pass_gate-Keeps, parse_body-Keeps, activate_write-Keeps, reject_write-Keeps, cancel_write-Keeps,
  close_write-Keeps, announce_cancelled-Keeps,
}

-- The requests that were let in: a participant whom the policy allows the action.
Keeps-participant :
    {B : Type 0} (id : String) (auth : Caller) (a : ContractMutationAction) (k : Action B)
    → Keeps k
    → Keeps (
        gets (get_participant id auth.id) >>= λ found.
        require found 404 not_found >>= λ p. check_policy a p >>= λ _. k)
Keeps-participant id auth a k h = Keeps-bind _ _ (Keeps-gets _) (λ found.
    Keeps-bind _ _ (Keeps-require found _ _) (λ p. Keeps-bind _ _ (enforce-Keeps _) (λ _. h)))

module _ (others : Store → Store) (polite : (s : Store) → Follows s (others s)) (now : ℕ)
    (auth : Caller) (id : String) where
  Keeps-others : Keeps (modify others)
  Keeps-others = Keeps-modify others polite

  pub cancel-Keeps : Keeps (cancel others now auth id)
  unfolding cancel
  cancel-Keeps = Keeps-participant id auth _ _ (
      Keeps-bind _ _ (Keeps-gets _) (λ row. Keeps-bind _ _ (Keeps-require row _ _) (λ c.
        Keeps-bind _ _ (Keeps-guard _ _ _) (λ _. Keeps-bind _ _ Keeps-others (λ _.
          Keeps-bind _ _ (cancel_write-Keeps now auth id) (λ updated.
            Keeps-bind _ _ (Keeps-require updated _ _) (λ written.
              Keeps-bind _ _ (announce_cancelled-Keeps now auth id)
                (λ _. Keeps-bind _ _ (Keeps-audit _ _ _) (λ _. Keeps-gets _)))))))))

pub select-id :
    (id : String) (cs : List Contract) (c : Contract) → select_contract id cs ≡ some c → c.id ≡ id
select-id id [] c h = cc
select-id id (x ∷ cs) c h = ground (arith, eq_iff x.id id, select-id id cs c)

select-again :
    (id j : String) (cs : List Contract) (c : Contract)
    → j ≡ id
    → select_contract id cs ≡ some c
    → select_contract j cs ≡ some c
select-again id j cs c e h = rw e h

-- A route that fetched the contract, closed it if it had expired, and goes on.
pub Keeps-checked :
    {B : Type 0} (now : ℕ) (id : String) (st : ℕ) (code : ErrorCode)
    (k : Contract → Contract → Action B)
    → ((c d : Contract) → Keeps (k c d))
    → Keeps (
        gets (λ s. select_contract id s.contracts) >>= λ row.
        require row st code >>= λ c. auto_close_if_expired (λ s. s) now c >>= k c)
Keeps-checked now id st code k h = Keeps-select id st code _ (λ c s found.
    bind-Follows (auto_close_if_expired (λ s. s) now c) (k c) s
      (auto_close-Follows now c s
        (select-again id c.id s.contracts c (select-id id s.contracts c found) found))
      (h c))

module _ (now : ℕ) (auth : Caller) (id : String) where
  announce_accepted-Same :
      (b : Bool) (c : Contract) (s : Store)
      → Same s (if b then announce_accepted auth id c s else s)
  unfolding announce_accepted
  announce_accepted-Same true c s = deliver-Same _ _ id s
  announce_accepted-Same false c s = Same-refl s

  tell_proposer-Same : (o : Option Contract) (s : Store) → Same s (tell_proposer auth id o s)
  tell_proposer-Same none s = Same-refl s
  tell_proposer-Same (some c) s = deliver-Same _ _ id s

  announce_rejected-Same : (s : Store) → Same s (announce_rejected auth id s)
  announce_rejected-Same s = tell_proposer-Same (select_contract id s.contracts) s

module _ (others : ℕ → Store → Store) (polite : (n : ℕ) (s : Store) → Follows s (others n s))
    (now : ℕ) (auth : Caller) (id : String) where
  Keeps-gap : (n : ℕ) → Keeps (modify (others n))
  Keeps-gap n = Keeps-modify (others n) (polite n)

  activate-Keeps : Keeps (activate_if_all_accepted others now id)
  unfolding activate_if_all_accepted
  activate-Keeps = Keeps-bind _ _ (Keeps-gap 2) (λ _. Keeps-bind _ _ (Keeps-gets _) (λ ps.
      Keeps-if _ _ _
        (Keeps-bind _ _ (Keeps-gap 3)
          (λ u. Keeps-bind _ _ (activate_write-Keeps now auth id) (λ a. Keeps-pure _)))
        (Keeps-pure false)))

  pub accept-Keeps : Keeps (accept others now auth id)
  unfolding accept
  accept-Keeps = Keeps-participant id auth _ _ (
      Keeps-bind _ _ (Keeps-gap 0) (λ _. Keeps-checked now id _ _ _ (λ c d.
        Keeps-bind _ _ (Keeps-guard _ _ _) (λ _. Keeps-bind _ _ (Keeps-gap 1) (λ _.
          Keeps-bind _ _ (Keeps-update_participant _ _) (λ answered.
            Keeps-bind _ _ (Keeps-require answered _ _) (λ responded.
              Keeps-bind _ _ activate-Keeps (λ activated.
                Keeps-bind _ _
                  (Keeps-modify _
                    (λ s. Follows-Same (announce_accepted-Same now auth id activated c s)))
                  (λ _. Keeps-bind _ _ (Keeps-audit _ _ _) (λ _. Keeps-gets _))))))))))

  pub reject-Keeps : Keeps (reject others now auth id)
  unfolding reject
  reject-Keeps = Keeps-participant id auth _ _ (
      Keeps-bind _ _ (Keeps-gap 0) (λ _. Keeps-checked now id _ _ _ (λ c d.
        Keeps-bind _ _ (Keeps-guard _ _ _) (λ _. Keeps-bind _ _ (Keeps-gap 1) (λ _.
          Keeps-bind _ _ (Keeps-update_participant _ _) (λ answered.
            Keeps-bind _ _ (Keeps-require answered _ _) (λ responded.
              Keeps-bind _ _ (Keeps-gap 2) (λ _.
                Keeps-bind _ _ (reject_write-Keeps now auth id) (λ rejected.
                  Keeps-bind _ _
                    (Keeps-modify _ (λ s. Follows-Same (announce_rejected-Same now auth id s)))
                    (λ _. Keeps-bind _ _ (Keeps-audit _ _ _) (λ _. Keeps-gets _)))))))))))

module _ (others : Store → Store) (polite : (s : Store) → Follows s (others s)) (now : ℕ)
    (auth : Caller) (id : String) where
  pub close-Keeps : (body : CloseBody) → Keeps (close others now auth id body)
  unfolding close
  close-Keeps body = Keeps-participant id auth _ _ (
      Keeps-bind _ _ (Keeps-gets _) (λ row. Keeps-bind _ _ (Keeps-require row _ _) (λ c.
        Keeps-bind _ _ (Keeps-guard _ _ _) (λ _. Keeps-bind _ _ (parse_body-Keeps body) (λ r.
          Keeps-bind _ _ (pass_gate-Keeps _) (λ w.
            Keeps-bind _ _ (Keeps-others others polite now auth id) (λ _.
              Keeps-bind _ _ (close_write-Keeps now auth id _ w) (λ updated.
                Keeps-bind _ _ (Keeps-require updated _ _) (λ written.
                  Keeps-bind _ _ (Keeps-modify _ (λ s. Follows-Same (emit_Same id _ _ _ _ c w s)))
                    (λ _. Keeps-bind _ _ (Keeps-audit _ _ _) (λ _. Keeps-gets _)))))))))))
