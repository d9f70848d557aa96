-- ===== src/Tokens/Auth.antt =====
-- Which tokens are let in.
use aurium.Base.{
  ◌≡◌, refl, Bool, true, false, not, ◌&&◌, ◌||◌, Option, none, some, List, [], ◌∷◌, ◌++◌, Text,
  codes, text_eq, text_eq_refl, is_empty, any, map, All, arith, Bool-cases, ◌⊎◌, inl, inr,
}
use aurium.Base.Int.{ℤ}
use aurium.Db.{Result, ok, failed, Faults, ◌>>=◌, query, statement}
use aurium.Db.Rules.{Post, Post-mono, bind_rule, statement_rule}
use aurium.Tokens.{
  TokenInfo, Row, Tables, AuthError, with_hash, refers, is_held_in, revoke_row,
  revoke_tokens_for_container, has_expired, info_of, or_unauthorized, stands, check_container,
  check_row, expiry, create_token, authenticate_token,
}
use aurium.Tokens.Scopes.{HasNoComma, split-join}

-- The container of a row is not named, or it is still there.
abbrev pub IsHoused : Tables → Row → Type 0
IsHoused t r = (is_empty r.container_id ≡ true) ⊎ (any (text_eq r.container_id) t.containers ≡ true)

module _ (hash : Text → Text) (now : ℤ) (plaintext : Text) (t : Tables) where
  -- What a token needs: a row with its hash, not revoked, not over, and housed.
  pub record IsUsable (info : TokenInfo) : Type 0 where
    pub row : Row
    pub found : with_hash (hash plaintext) t.tokens ≡ some row
    pub unrevoked : row.is_revoked ≡ false
    pub unexpired : has_expired now row.expires_at ≡ false
    pub housed : IsHoused t row
    pub reads : info ≡ info_of row

  -- What an authentication gives: an answer for a usable token, or `ErrUnauthorized`; nothing is
  -- changed, and no failure of the database gets through.
  abbrev pub Authenticates : Result AuthError TokenInfo × Tables × Faults → Type 0
  Authenticates = Post (λ info u. IsUsable info × (u ≡ t)) (λ _ u. u ≡ t) (λ _. ⊥)

  module _ (r : Row) (f : with_hash (hash plaintext) t.tokens ≡ some r) (v : r.is_revoked ≡ false)
      (e : has_expired now r.expires_at ≡ false) where
    usable : IsHoused t r → IsUsable (info_of r)
    usable h = record { row = r; found = f; unrevoked = v; unexpired = e; housed = h; reads = refl }

    stands_rule :
        (b : Bool) (fs : Faults)
        → any (text_eq r.container_id) t.containers ≡ b
        → Authenticates (stands r b t fs)
    stands_rule true fs h = (usable (inr h), refl)
    stands_rule false fs h = refl

    look_up_rule :
        (fs : Faults)
        → Authenticates (
            (or_unauthorized (query (λ (t : Tables). any (text_eq r.container_id) t.containers))
                >>= stands r)
              t fs)
    unfolding statement
    look_up_rule [] = stands_rule (any (text_eq r.container_id) t.containers) [] refl
    look_up_rule (true ∷ fs) = refl
    look_up_rule (false ∷ fs) = stands_rule (any (text_eq r.container_id) t.containers) fs refl

    check_container_rule : (fs : Faults) → Authenticates (check_container r t fs)
    check_container_rule fs = elim (Bool-cases (is_empty r.container_id)) [
      | inl bare ↦ simp bare (usable (inl bare), refl)
      | inr named ↦ simp named (look_up_rule fs)
    ]

  check_row_rule :
      (o : Option Row) (fs : Faults)
      → with_hash (hash plaintext) t.tokens ≡ o
      → Authenticates (check_row now o t fs)
  check_row_rule none fs f = refl
  check_row_rule (some r) fs f = elim (Bool-cases r.is_revoked) [
    | inl on ↦ simp on refl
    | inr v ↦ simp v (elim (Bool-cases (has_expired now r.expires_at)) [
      | inl over ↦ simp over refl
      | inr e ↦ simp e (check_container_rule r f v e fs)
    ])
  ]

  found_rule :
      (fs : Faults)
      → Authenticates (
          (or_unauthorized (query (λ (t : Tables). with_hash (hash plaintext) t.tokens))
              >>= check_row now)
            t fs)
  unfolding statement
  found_rule [] = check_row_rule (with_hash (hash plaintext) t.tokens) [] refl
  found_rule (true ∷ fs) = refl
  found_rule (false ∷ fs) = check_row_rule (with_hash (hash plaintext) t.tokens) fs refl

  -- A token is let in only if it is usable, whatever statements the database refuses: a row has
  -- its hash, is not revoked, has not expired, and names no container that is gone. A refused
  -- statement lets nobody in, and nothing is changed.
  pub authenticate_token-IsUsable :
      (fs : Faults) → Authenticates (authenticate_token hash now plaintext t fs)
  unfolding authenticate_token
  authenticate_token-IsUsable fs = elim (Bool-cases (is_empty plaintext)) [
    | inl blank ↦ simp blank refl
    | inr given ↦ simp given (found_rule fs)
  ]

-- Among revoked rows those of the container are not let in.
revoked_row :
    (c h : Text) (rows : List Row) (r : Row)
    → with_hash h (map (revoke_row c) rows) ≡ some r
    → r.is_revoked ≡ false
    → is_held_in c r ≡ false
revoked_row c h [] r e v = cc
revoked_row c h (x ∷ rows) r e v = ground (arith, revoked_row c h rows r)

-- A named container that a row is not held in is not the row's.
unheld :
    (c : Text) (r : Row)
    → is_empty c ≡ false
    → is_held_in c r ≡ false
    → text_eq c r.container_id ≡ false
unfolding text_eq
unheld [] r named h = cc
unheld (x ∷ c) r named h = go r.container_id h
  where
    go : (d : Text) → (not (is_empty d) && text_eq (x ∷ c) d) ≡ false → text_eq (x ∷ c) d ≡ false
    go [] k = refl
    go (y ∷ d) k = k

-- Once the tokens of a container are revoked, no token that is let in is the container's, whose id is
-- not empty; a revocation that the database refuses changes nothing.
pub authenticate_token-revoked :
    (hash : Text → Text) (now : ℤ) (plaintext c : Text) (t : Tables) (fs : Faults)
    → is_empty c ≡ false
    → Post
        (λ info _. text_eq c info.container_id ≡ false)
        (λ _ _. Unit)
        (λ u. u ≡ t)
        ((revoke_tokens_for_container c >>= λ _. authenticate_token hash now plaintext) t fs)
unfolding revoke_tokens_for_container
authenticate_token-revoked hash now plaintext c t fs named =
    bind_rule (λ info _. text_eq c info.container_id ≡ false) (λ _ _. Unit) (λ u. u ≡ t)
      (λ _ u. u ≡ after_revoke) (revoke_tokens_for_container c)
      (λ _. authenticate_token hash now plaintext) t fs
      (statement_rule (λ _ u. u ≡ after_revoke) (λ _ _. Unit) (λ u. u ≡ t) _ t fs refl refl)
      (λ _ u gs h. rw h (
        Post-mono (authenticate_token hash now plaintext after_revoke gs)
          (λ info _ k. let_in info k.0) (λ _ _ _. tt) (λ _ k. absurd k)
          (authenticate_token-IsUsable hash now plaintext after_revoke gs)))
  where
    after_revoke : Tables
    after_revoke = record t { tokens = map (revoke_row c) t.tokens }

    let_in :
        (info : TokenInfo)
        → IsUsable hash now plaintext after_revoke info
        → text_eq c info.container_id ≡ false
    let_in info k =
        rw k.reads
          (unheld c k.row named (revoked_row c (hash plaintext) t.tokens k.row k.found k.unrevoked))

refers_there :
    (id : Text) (ids : List Text) (b : Bool)
    → is_empty id ≡ false
    → (refers id ids && b) ≡ true
    → any (text_eq id) ids ≡ true
refers_there id ids b named h = go (is_empty id) (any (text_eq id) ids) b named h
  where
    go : (x y z : Bool) → x ≡ false → ((x || y) && z) ≡ true → y ≡ true
    go true y z e k = cc
    go false true z e k = refl
    go false false z e k = k

-- A token that is to be created with an id and a hash that no row has, with one scope at least, no
-- comma in any, and an expiry that has not passed when it is used, when nothing fails: where its
-- container and its agent each are a row or are not named, it is created, and it authenticates as
-- what was issued; where one of them is named and is no row, no token is created and nothing is
-- stored.
pub authenticate_token-create :
    (hash : Text → Text) (raw id : Text) (now later : ℤ) (container agent scope : Text)
    (scopes : List Text) (ttl : ℤ) (t : Tables)
    → any (λ (x : Row). text_eq id x.id || text_eq (hash (codes "aur_" ++ raw)) x.hash) t.tokens
      ≡ false
    → All HasNoComma (scope ∷ scopes)
    → has_expired later (expiry ttl now) ≡ false
    → let made = create_token hash raw id now container agent (scope ∷ scopes) ttl t [] in
      let info : TokenInfo = record {
        id = id;
        container_id = container;
        agent_id = agent;
        scopes = scope ∷ scopes;
        expires_at = expiry ttl now;
      } in
      (((refers container t.containers && refers agent t.agents) ≡ true)
        × (made.0 ≡ ok (codes "aur_" ++ raw, info))
        × ((authenticate_token hash later (codes "aur_" ++ raw) made.1 []).0 ≡ ok info))
      ⊎ (((refers container t.containers && refers agent t.agents) ≡ false)
          × (made.0 ≡ failed)
          × (made.1 ≡ t))
unfolding create_token authenticate_token statement
authenticate_token-create hash raw id now later container agent scope scopes ttl t fresh plain
      live =
    elim (Bool-cases (refers container t.containers && refers agent t.agents)) [
      | inr gone ↦ inr (rw (fresh, gone) (refl, refl, refl))
      | inl there ↦ elim (Bool-cases (is_empty container)) [
        | inl bare ↦ inl (
            rw
              (
                fresh,
                there,
                text_eq_refl (hash (codes "aur_" ++ raw)),
                live,
                bare,
                split-join scope scopes plain,
              )
              (refl, refl, refl))
        | inr named ↦ inl (
            rw
              (
                fresh,
                there,
                text_eq_refl (hash (codes "aur_" ++ raw)),
                live,
                named,
                refers_there container t.containers (refers agent t.agents) named there,
                split-join scope scopes plain,
              )
              (refl, refl, refl))
      ]
    ]
