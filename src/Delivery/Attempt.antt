-- ===== src/Delivery/Attempt.antt =====
-- Proofs about one attempt of `submit_one` of src/delivery/mod.rs.
use lariska.Prelude.{
  ℕ, suc, ◌+◌, ◌≤◌, ◌<◌, ◌≡◌, ◌≢◌, refl, sym, ap, ◌∙◌, String, Bool, true, false, not, ◌&&◌, arith,
}
use lariska.Exec.{Result, ok, err}
use lariska.Exec.Runs.{Outcome, Runs-pure, Runs-lift, Runs-gets, Runs-modify, Runs-if, Runs-bind}
use lariska.Delivery.Host.{ApiError, Failure, out_of_fuel, Snapshots, Host, Network, Done}
use lariska.Delivery.Submit.{is_auth, as_blocking, token, sent, post, refresh_once, post_refreshing}

-- The posts that a refresh of the token may still add.
abbrev pub spare : Bool → ℕ
spare true = 0
spare false = 1

-- From `h` to `t`, at most `n` posts, answered by the same server.
pub record Sent {A : Type 0} (n : ℕ) (h t : Host A) : Type 0 where
  pub same : t.network.answers ≡ h.network.answers
  pub more : h.network.posts ≤ t.network.posts
  pub few : t.network.posts ≤ h.network.posts + n

-- The server accepted a post that was made from `h` to `t`.
pub record Accepted {A : Type 0} (h t : Host A) : Type 0 where
  pub number : ℕ
  pub after : h.network.posts ≤ number
  pub before : number < t.network.posts
  pub accepted : h.network.answers number ≡ ok tt

module _ (env : Snapshots) (jitter : ℕ → ℕ) where
  open env use {Snapshot}

  as_blocking-fuel :
      {B : Type 0} (r : Result ApiError B) (e : Failure) → as_blocking r ≡ err e → e ≢ out_of_fuel
  unfolding as_blocking
  as_blocking-fuel (ok b) e h = cc
  as_blocking-fuel (err x) e h = λ q. cc (h, q)

  module _ {Q : String → Host Snapshot → Type 0} {R : Failure → Host Snapshot → Type 0} where
    Runs-token :
        (h : Host Snapshot)
        → ((s : String) (n : Network)
            → n.answers ≡ h.network.answers
            → n.posts ≡ h.network.posts
            → Q s (record h { network = n }))
        → ((e : Failure) (t : Host Snapshot) → Sent 0 h t → e ≢ out_of_fuel → R e t)
        → Outcome Q R (token env jitter h)
    unfolding token
    Runs-token h good bad =
        Runs-lift _ _ (λ s _. good s _ refl refl)
          (λ e p.
            bad e _ (record { same = refl; more = omega arith; few = omega arith })
              (as_blocking-fuel _ e p))

  module _ {Q : Result ApiError Done → Host Snapshot → Type 0}
      {R : Failure → Host Snapshot → Type 0} where
    Runs-post :
        (snapshot : Snapshot) (h : Host Snapshot)
        → Q (h.network.answers h.network.posts) (sent env jitter snapshot h)
        → Outcome Q R (post env jitter snapshot h)
    unfolding post
    Runs-post snapshot h good =
        Runs-bind _ _ h (Runs-gets _ h (Runs-bind _ _ h (Runs-modify _ h (Runs-pure _ _ good))))

  -- An attempt, with the refresh that it may make.
  pub record Attempted (refreshed : Bool) (h : Host Snapshot) (r : Bool)
      (answer : Result ApiError Done) (t : Host Snapshot) : Type 0 where
    pub same : t.network.answers ≡ h.network.answers
    pub more : h.network.posts ≤ t.network.posts
    pub few : t.network.posts + spare r ≤ h.network.posts + 1 + spare refreshed
    pub accepted : answer ≡ ok tt → Accepted h t

  -- The post with the new token.
  again-Attempted :
      (snapshot : Snapshot) (e : ApiError) (refreshed : Bool) (h t : Host Snapshot) (n : Network)
      → t.network.answers ≡ h.network.answers
      → t.network.posts ≡ suc h.network.posts
      → n.answers ≡ t.network.answers
      → n.posts ≡ t.network.posts
      → (is_auth e && not refreshed) ≡ true
      → Attempted refreshed h true
          (n.answers n.posts)
          (sent env jitter snapshot (record t { network = n }))
  again-Attempted snapshot e refreshed h t n same once same' posts fresh = record {
    same = same' ∙ same;
    more = omega (arith, once, posts);
    few = ground (arith, once, posts, fresh);
    accepted = λ accepted. record {
      number = n.posts;
      after = omega (arith, once, posts);
      before = omega arith;
      accepted = ap (λ f. f n.posts) (sym (same' ∙ same)) ∙ accepted;
    };
  }

  first-Attempted :
      (refreshed : Bool) (h t : Host Snapshot) (answer : Result ApiError Done)
      → t.network.answers ≡ h.network.answers
      → t.network.posts ≡ suc h.network.posts
      → h.network.answers h.network.posts ≡ answer
      → Attempted refreshed h refreshed answer t
  first-Attempted refreshed h t answer same once p = record {
    same = same;
    more = omega (arith, once);
    few = omega (arith, once);
    accepted = λ accepted. record {
      number = h.network.posts;
      after = omega arith;
      before = omega (arith, once);
      accepted = p ∙ accepted;
    };
  }

  refresh_once-Outcome :
      (snapshot : Snapshot) (refreshed : Bool) (h t : Host Snapshot) (answer : Result ApiError Done)
      → t.network.answers ≡ h.network.answers
      → t.network.posts ≡ suc h.network.posts
      → h.network.answers h.network.posts ≡ answer
      → Outcome
          (λ (r, answer) u. Attempted refreshed h r answer u)
          (λ e u. Sent 1 h u × (e ≢ out_of_fuel))
          (refresh_once env jitter snapshot refreshed answer t)
  unfolding refresh_once
  refresh_once-Outcome snapshot refreshed h t (ok a) same once p =
      Runs-pure _ t (first-Attempted refreshed h t (ok a) same once p)
  refresh_once-Outcome snapshot refreshed h t (err e) same once p =
      Runs-if _ _ _ t
        (λ fresh. Runs-bind _ _ t (
          Runs-token t
            (λ s n same' posts. Runs-bind _ _ _ (
              Runs-post snapshot _ (
                Runs-pure _ _
                  (again-Attempted snapshot e refreshed h t n same once same' posts fresh))))
            (λ x u sent fuel. (
              record {
                same = sent.same ∙ same;
                more = omega (arith, once, sent.more);
                few = omega (arith, once, sent.few);
              },
              fuel,
            ))))
        (λ _. Runs-pure _ t (first-Attempted refreshed h t (err e) same once p))

  pub post_refreshing-Outcome :
      (snapshot : Snapshot) (refreshed : Bool) (h : Host Snapshot)
      → Outcome
          (λ (r, answer) t. Attempted refreshed h r answer t)
          (λ e t. Sent 1 h t × (e ≢ out_of_fuel))
          (post_refreshing env jitter snapshot refreshed h)
  unfolding post_refreshing
  post_refreshing-Outcome snapshot refreshed h = Runs-bind _ _ h (
      Runs-token h
        (λ s n same posts. Runs-bind _ _ _ (
          Runs-post snapshot _ (
            refresh_once-Outcome snapshot refreshed h _ _ same (ap suc posts)
              (ap (λ f. f h.network.posts) (sym same) ∙ ap n.answers (sym posts)))))
        (λ e t sent fuel.
          (record { same = sent.same; more = sent.more; few = omega (arith, sent.few) }, fuel)))
