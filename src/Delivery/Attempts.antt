-- ===== src/Delivery/Attempts.antt =====
-- Proofs about the loop of `submit_one` of src/delivery/mod.rs.
use lariska.Prelude.{
  ℕ, zero, suc, ◌+◌, ◌≤◌, ◌<◌, ◌≡◌, ◌≢◌, refl, sym, ap, ◌∙◌, Bool, true, false, ltb, arith,
}
use lariska.Exec.{Result, ok, err}
use lariska.Exec.Runs.{
  Outcome, Outcome-split, Outcome-both, Runs-pure, Runs-raise, Runs-if, Runs-bind, Runs-attempt,
  Runs-Moves, Runs-imp,
}
use lariska.Delivery.Host.{
  ApiError, Failure, out_of_fuel, blocking, quarantined, Snapshots, Host, Network, Done,
}
use lariska.Delivery.Retry.{RetryDecision, retry_after, give_up, classify}
use lariska.Delivery.Submit.{
  max_attempts_per_entry, is_rejected, sent, reject, retry_or_give_up, conclude, submit_loop,
  submit_one,
}
use lariska.Delivery.Network.{SameNetwork, quarantine_by_id-SameNetwork}
use lariska.Delivery.Attempt.{spare, Sent, Accepted, Attempted, post_refreshing-Outcome}

module _ (env : Snapshots) (jitter : ℕ → ℕ) where
  open env use {Snapshot}

  -- How the rest of the loop ends: after at most `n` posts, with an acceptance or an error.
  Ends : ℕ → Host Snapshot → Result Failure Done × Host Snapshot → Type 0
  Ends n h = Outcome (λ _ t. Sent n h t × Accepted h t) (λ e t. Sent n h t × (e ≢ out_of_fuel))

  blocking-fuel : (e : ApiError) → blocking e ≢ out_of_fuel
  blocking-fuel e h = cc

  quarantined-fuel : (e : ApiError) → quarantined e ≢ out_of_fuel
  quarantined-fuel e h = cc

  reject-Ends :
      (snapshot : Snapshot) (e : ApiError) (n : ℕ) (h t : Host Snapshot)
      → Sent n h t
      → Ends n h (reject env jitter snapshot e t)
  unfolding Ends reject
  reject-Ends snapshot e n h t sent = Runs-bind _ _ t (
      Runs-attempt _ t (
        Runs-Moves (quarantine_by_id-SameNetwork _) t
          (λ _ u same. Runs-raise _ _ (still u same, quarantined-fuel e))
          (λ _ u same. Runs-raise _ _ (still u same, blocking-fuel e))))
    where
      still : (u : Host Snapshot) → SameNetwork t u → Sent n h u
      still u same = record {
        same = ap (λ (x : Network). x.answers) same.network ∙ sent.same;
        more = omega (arith, sent.more, ap (λ (x : Network). x.posts) same.network);
        few = omega (arith, sent.few, ap (λ (x : Network). x.posts) same.network);
      }

  retry_or_give_up-Ends :
      (next : Host Snapshot → Result Failure Done × Host Snapshot) (e : ApiError) (attempt n : ℕ)
      (decision : RetryDecision) (h t : Host Snapshot)
      → Sent n h t
      → (ltb attempt max_attempts_per_entry ≡ true → Ends n h (next t))
      → Ends n h (retry_or_give_up env jitter next e attempt decision t)
  unfolding Ends retry_or_give_up
  retry_or_give_up-Ends next e attempt n give_up h t sent more =
      Runs-raise _ t (sent, blocking-fuel e)
  retry_or_give_up-Ends next e attempt n (retry_after ms) h t sent more =
      Runs-if _ _ _ t more (λ _. Runs-raise _ t (sent, blocking-fuel e))

  conclude-Ends :
      (next : Host Snapshot → Result Failure Done × Host Snapshot) (snapshot : Snapshot)
      (attempt n : ℕ) (answer : Result ApiError Done) (h t : Host Snapshot)
      → Sent n h t
      → (answer ≡ ok tt → Accepted h t)
      → (ltb attempt max_attempts_per_entry ≡ true → Ends n h (next t))
      → Ends n h (conclude env jitter next snapshot attempt answer t)
  unfolding Ends conclude
  conclude-Ends next snapshot attempt n (ok a) h t sent accepted more =
      Runs-pure _ t (sent, accepted refl)
  conclude-Ends next snapshot attempt n (err e) h t sent accepted more =
      Runs-if (is_rejected e) (reject env jitter snapshot e)
        (retry_or_give_up env jitter next e attempt (classify jitter e attempt)) t
        (λ _. reject-Ends snapshot e n h t sent)
        (λ _. retry_or_give_up-Ends next e attempt n (classify jitter e attempt) h t sent more)

  -- An attempt, and the end of the loop after it.
  Ends-after :
      (fuel : ℕ) (refreshed r : Bool) (answer : Result ApiError Done) (h t : Host Snapshot)
      (p : Result Failure Done × Host Snapshot)
      → Attempted env jitter refreshed h r answer t
      → Ends (fuel + spare r) t p
      → Ends (suc fuel + spare refreshed) h p
  unfolding Ends
  Ends-after fuel refreshed r answer h t p tried rest =
      Runs-imp p rest (λ _ u (sent, accepted). (further u sent, earlier u accepted))
        (λ _ u (sent, no_fuel). (further u sent, no_fuel))
    where
      further :
          (u : Host Snapshot) → Sent (fuel + spare r) t u → Sent (suc fuel + spare refreshed) h u
      further u sent = record {
        same = sent.same ∙ tried.same;
        more = omega (arith, sent.more, tried.more);
        few = omega (arith, sent.few, tried.few);
      }

      earlier : (u : Host Snapshot) → Accepted t u → Accepted h u
      earlier u a = record {
        number = a.number;
        after = omega (arith, a.after, tried.more);
        before = a.before;
        accepted = ap (λ f. f a.number) (sym tried.same) ∙ a.accepted;
      }

  -- With fuel for the attempts that are left, the loop ends.
  submit_loop-Ends :
      (fuel : ℕ) (snapshot : Snapshot) (attempt : ℕ) (refreshed : Bool) (h : Host Snapshot)
      → fuel + attempt ≡ suc max_attempts_per_entry
      → 0 < fuel
      → Ends (fuel + spare refreshed) h (submit_loop env jitter fuel snapshot attempt refreshed h)
  unfolding Ends submit_loop
  submit_loop-Ends zero snapshot attempt refreshed h total pos = absurd (omega (arith, pos))
  submit_loop-Ends (suc fuel) snapshot attempt refreshed h total pos = Runs-bind _ _ h (
      Runs-imp _ (post_refreshing-Outcome env jitter snapshot refreshed h)
        (λ (r, answer) t tried.
          conclude-Ends (submit_loop env jitter fuel snapshot (suc attempt) r) snapshot attempt
            (suc fuel + spare refreshed) answer h t
            (record { same = tried.same; more = tried.more; few = omega (arith, tried.few) })
            tried.accepted
            (λ early. Ends-after fuel refreshed r answer h t _ tried (
              submit_loop-Ends fuel snapshot (suc attempt) r t (omega (arith, total))
                (ground (arith, early, total)))))
        (λ e t (sent, no_fuel).
          (record { same = sent.same; more = sent.more; few = omega (arith, sent.few) }, no_fuel)))

  submit_one-Ends :
      (snapshot : Snapshot) (h : Host Snapshot) → Ends 7 h (submit_one env jitter snapshot h)
  submit_one-Ends snapshot h = submit_loop-Ends 6 snapshot 1 false h refl (omega arith)

  -- `submit_one` ends within its six attempts and posts at most seven times: once for each attempt, and
  -- once for a refreshed token. If it fails, it is not for want of fuel.
  pub submit_one-posts :
      (snapshot : Snapshot) (h : Host Snapshot)
      → ((submit_one env jitter snapshot h).1.network.posts ≤ h.network.posts + 7)
        × ((submit_one env jitter snapshot h).0 ≢ err out_of_fuel)
  unfolding Ends
  submit_one-posts snapshot h =
      (few, λ stuck. ((Outcome-split _ (submit_one-Ends snapshot h)).1 out_of_fuel stuck).1 refl)
    where
      few : (submit_one env jitter snapshot h).1.network.posts ≤ h.network.posts + 7
      few =
          (Outcome-both {P = Sent 7 h} _
            (Runs-imp _ (submit_one-Ends snapshot h) (λ _ _ k. k.0) (λ _ _ k. k.0))).few

  -- If `submit_one` returns, the server has accepted a post that it made.
  pub submit_one-Accepted :
      (snapshot : Snapshot) (h : Host Snapshot)
      → (submit_one env jitter snapshot h).0 ≡ ok tt
      → Accepted h (submit_one env jitter snapshot h).1
  unfolding Ends
  submit_one-Accepted snapshot h done = ((Outcome-split _ (submit_one-Ends snapshot h)).0 tt done).1
