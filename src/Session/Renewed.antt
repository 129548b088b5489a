-- ===== src/Session/Renewed.antt =====
-- Proofs about one heartbeat of src/heartbeat.rs and the token of src/auth.rs that it uses.
use lariska.Prelude.{
  ℕ, suc, ◌+◌, ◌≤◌, ◌≡◌, refl, ap, ◌∙◌, ◌⊎◌, inl, inr, false, Option, none, some, ◌∷◌, ltb, max,
  is_empty, arith,
}
use lariska.Exec.{Result, ok, err, pure, raise, gets, modify, guard, attempt, ◌>>=◌}
use lariska.Exec.Runs.{Outcome, Runs-pure, Runs-gets, Runs-modify, Runs-if, Runs-imp, Runs-bind}
use lariska.Inventory.Text.{Text, Unicode, trim}
use lariska.Delivery.Host.{ApiError, auth}
use lariska.Session.Client.{
  AuthExchangeResponse, TokenState, is_auth, HeartbeatResponse, Server, Session, read_key,
  record_capability, instant_now, post_exchange, post_json, exchange, force_refresh,
  token_or_refresh, token, retry_refused, heartbeat_with_revision,
}

-- The provisioning key is there and is exchanged, and the token of an exchange is taken. Of the tokens
-- of earlier exchanges nothing is said but that they are at worst refused.
pub record Serves (server : Server) (unicode : Unicode) : Type 0 where
  pub key : Text
  pub readable : (n : ℕ) → server.key_file n ≡ some key
  pub is_key : is_empty (trim unicode key) ≡ false
  pub issued : ℕ → AuthExchangeResponse
  pub exchanged : (n : ℕ) → server.exchanges n (trim unicode key) ≡ ok (issued n)
  pub taken :
      (n m : ℕ)
      → (response : HeartbeatResponse) × (server.replies m (issued n).access_token ≡ ok response)
  pub refused :
      (m : ℕ) (t : Text) (error : ApiError) → server.replies m t ≡ err error → error ≡ auth

-- From `s` to `t` a token was fetched: the one that was cached, or a new one.
record Held (server : Server) (s : Session) (fetched : Text) (t : Session) : Type 0 where
  state : TokenState
  cached : t.state ≡ some state
  is_cached : state.access_token ≡ fetched
  posts : t.posts ≡ s.posts
  fetched_by :
      (t.exchanged ≡ s.exchanged)
      ⊎ ((t.exchanged ≡ suc s.exchanged)
          × ((m : ℕ) → (response : HeartbeatResponse) × (server.replies m fetched ≡ ok response)))

-- From `s` to `t` a heartbeat was answered with `response`: by at most two requests and at most one
-- exchange, and the token that is cached in the end is the one that was taken.
pub record Renewed (server : Server) (s : Session) (response : HeartbeatResponse) (t : Session)
    : Type 0 where
  pub state : TokenState
  pub cached : t.state ≡ some state
  pub number : ℕ
  pub last_post : t.posts ≡ suc number
  pub taken : server.replies number state.access_token ≡ ok response
  pub posts : t.posts ≤ s.posts + 2
  pub exchanged : t.exchanged ≤ s.exchanged + 1

module _ (server : Server) {Q : ℕ → Session → Type 0} {R : ApiError → Session → Type 0} where
  Runs-instant_now :
      (s : Session)
      → Q (server.now s.looks) (record s { looks = suc s.looks })
      → Outcome Q R (instant_now server s)
  unfolding instant_now pure
  Runs-instant_now s h = Runs-pure _ _ h

module _ (server : Server) {Q : Result ApiError HeartbeatResponse → Session → Type 0}
    {R : ApiError → Session → Type 0} where
  Runs-post_json :
      (first : Text) (t : Session)
      → ((answer : Result ApiError HeartbeatResponse)
          → server.replies t.posts first ≡ answer
          → Q answer (record t { posts = suc t.posts; sent = first ∷ t.sent }))
      → Outcome Q R (attempt (post_json server first) t)
  unfolding attempt post_json pure
  Runs-post_json first t h = Runs-pure _ _ (h _ refl)

recorded :
    (server : Server) (s u : Session) (response : HeartbeatResponse)
    → Renewed server s response u
    → Renewed server s response (record_capability response.info u)
unfolding record_capability
recorded server s u response r = record {
  state = r.state;
  cached = r.cached;
  number = r.number;
  last_post = r.last_post;
  taken = r.taken;
  posts = r.posts;
  exchanged = r.exchanged;
}

module _ (server : Server) (unicode : Unicode) (serves : Serves server unicode) where
  abbrev issued_at : Session → TokenState
  issued_at s = record {
    access_token = (serves.issued s.exchanged).access_token;
    refresh_at =
        server.now s.looks
        + server.refresh_in s.exchanged (max (serves.issued s.exchanged).expires_in 1);
  }

  abbrev looked : Session → Session
  looked s = record s { looks = suc s.looks }

  exchange_issues :
      (s : Session)
      → exchange server unicode s
        ≡ (ok (issued_at s), record s { exchanged = suc s.exchanged; looks = suc s.looks })
  unfolding exchange ◌>>=◌ gets read_key pure guard post_exchange instant_now
  exchange_issues s =
      rw (serves.readable s.exchanged) (rw serves.is_key (rw (serves.exchanged s.exchanged) refl))

  force_refresh_issues :
      (s : Session)
      → force_refresh server unicode s ≡ (
        ok (serves.issued s.exchanged).access_token,
        record s { state = some (issued_at s); exchanged = suc s.exchanged; looks = suc s.looks },
      )
  unfolding force_refresh ◌>>=◌ modify pure
  force_refresh_issues s = rw (exchange_issues s)

  force_refresh-Held :
      (s t : Session)
      → t.posts ≡ s.posts
      → t.exchanged ≡ s.exchanged
      → Outcome (λ fetched u. Held server s fetched u) (λ _ _. ⊥) (force_refresh server unicode t)
  unfolding pure
  force_refresh-Held s t posts exchanged = rw (force_refresh_issues t) (
      Runs-pure _ _ (record {
        state = issued_at t;
        cached = refl;
        is_cached = refl;
        posts = posts;
        fetched_by = inr (ap suc exchanged, serves.taken t.exchanged);
      }))

  token_or_refresh-Held :
      (cached : Option TokenState) (s : Session)
      → s.state ≡ cached
      → Outcome
          (λ fetched t. Held server s fetched t)
          (λ _ _. ⊥)
          (token_or_refresh server unicode cached s)
  unfolding token_or_refresh
  token_or_refresh-Held none s p = force_refresh-Held s s refl refl
  token_or_refresh-Held (some state) s p = Runs-bind _ _ s (
      Runs-instant_now server s (
        Runs-if (ltb (server.now s.looks) state.refresh_at) (pure state.access_token)
          (force_refresh server unicode) (looked s)
          (λ _. Runs-pure _ (looked s) (record {
            state = state;
            cached = p;
            is_cached = refl;
            posts = refl;
            fetched_by = inl refl;
          }))
          (λ _. force_refresh-Held s (looked s) refl refl)))

  token-Held :
      (s : Session)
      → Outcome (λ fetched t. Held server s fetched t) (λ _ _. ⊥) (token server unicode s)
  unfolding token
  token-Held s = Runs-bind _ _ s (Runs-gets _ s (token_or_refresh-Held s.state s refl))

  once_more :
      (s t : Session)
      → t.posts ≡ suc s.posts
      → t.exchanged ≡ s.exchanged
      → Outcome
          (λ response u. Renewed server s response u)
          (λ _ _. ⊥)
          ((force_refresh server unicode >>= post_json server) t)
  unfolding ◌>>=◌ post_json pure
  once_more s t posts exchanged =
      let (response, taken) = serves.taken t.exchanged t.posts in
      rw (force_refresh_issues t) (
        rw taken (
          Runs-pure response _ (record {
            state = issued_at t;
            cached = refl;
            number = t.posts;
            last_post = refl;
            taken = taken;
            posts = omega (arith, posts);
            exchanged = omega (arith, exchanged);
          })))

  retry_refused-Renewed :
      (s t : Session) (first : Text) (answer : Result ApiError HeartbeatResponse)
      → Held server s first t
      → server.replies t.posts first ≡ answer
      → Outcome
          (λ response u. Renewed server s response u)
          (λ _ _. ⊥)
          (retry_refused server unicode answer
            (record t { posts = suc t.posts; sent = first ∷ t.sent }))
  unfolding retry_refused
  retry_refused-Renewed s t first (ok response) held p = Runs-pure _ _ (record {
    state = held.state;
    cached = held.cached;
    number = t.posts;
    last_post = refl;
    taken = ap (server.replies t.posts) held.is_cached ∙ p;
    posts = omega (arith, held.posts);
    exchanged = ground (arith, held.fetched_by);
  })
  retry_refused-Renewed s t first (err error) held p =
      Runs-if (is_auth error) (force_refresh server unicode >>= post_json server) (raise error) _
        (λ _. elim held.fetched_by [
          | inl same ↦ once_more s _ (ap suc held.posts) same
          | inr (_, taken) ↦ absurd (let (response, q) = taken t.posts in cc (p, q))
        ])
        (λ other. absurd (let q = rw (serves.refused t.posts first error p) at other in cc q))

  -- If the provisioning key can be read and exchanged, the token of an exchange is taken, and the
  -- server does no worse than refuse a token, then a heartbeat is answered with success, whatever
  -- token was cached and whatever its age: with at most two requests and at most one exchange. The
  -- cached token is then the one that the server took in the last request.
  pub heartbeat_with_revision-Renewed :
      (s : Session)
      → Outcome
          (λ response t. Renewed server s response t)
          (λ _ _. ⊥)
          (heartbeat_with_revision server unicode s)
  unfolding heartbeat_with_revision
  heartbeat_with_revision-Renewed s = Runs-bind _ _ s (
      Runs-imp _ (token-Held s)
        (λ first t held. Runs-bind _ _ t (
          Runs-post_json server first t (λ answer p. Runs-bind _ _ _ (
            Runs-imp _ (retry_refused-Renewed s t first answer held p)
              (λ response u renewed.
                Runs-bind _ _ u
                  (Runs-modify _ u (Runs-pure _ _ (recorded server s u response renewed))))
              (λ _ _ impossible. impossible)))))
        (λ _ _ impossible. impossible))
