-- ===== src/Tokens/Tests.antt =====
-- Tokens on a concrete table.
use aurium.Base.{◌≡◌, refl, true, false, ◌&&◌, none, [], ◌∷◌, ◌++◌, Text, codes, text_eq, ◌⊎◌}
use aurium.Base.Int.{pos, ◌+ℤ◌}
use aurium.Db.{ok, failed, ◌>>=◌}
use aurium.Db.Rules.{Post}
use aurium.Tokens.{
  TokenInfo, Row, Tables, has, expiry, refers, revoke_tokens_for_container, create_token,
  authenticate_token,
}
use aurium.Tokens.Auth.{
  Authenticates, authenticate_token-IsUsable, authenticate_token-revoked, authenticate_token-create,
}

abbrev digest : Text → Text
digest s = b'#' ∷ s

abbrev empty_table : Tables
empty_table = record { tokens = []; containers = codes "c_1" ∷ []; agents = codes "a_1" ∷ [] }

abbrev row : Row
row = record {
  id = codes "tok_1";
  hash = digest (codes "aur_x");
  container_id = codes "c_1";
  agent_id = codes "a_1";
  scopes = codes "context:*,exec:self";
  expires_at = none;
  is_revoked = false;
}

abbrev one_token : Tables
one_token = record empty_table { tokens = row ∷ [] }

has_under : has (codes "context:*" ∷ []) (codes "context:read") ≡ true
unfolding has text_eq
has_under = refl

has_no_other : has (codes "context:read" ∷ []) (codes "context:write") ≡ false
unfolding has text_eq
has_no_other = refl

authenticate_token-IsUsable_example :
    Authenticates digest
      (pos 9)
      (codes "aur_x")
      one_token
      (authenticate_token digest (pos 9) (codes "aur_x") one_token (false ∷ true ∷ []))
authenticate_token-IsUsable_example =
    authenticate_token-IsUsable digest (pos 9) (codes "aur_x") one_token (false ∷ true ∷ [])

authenticate_token-revoked_example :
    Post
      (λ info _. text_eq (codes "c_1") info.container_id ≡ false)
      (λ _ _. Unit)
      (λ u. u ≡ one_token)
      ((revoke_tokens_for_container (codes "c_1") >>= λ _.
          authenticate_token digest (pos 9) (codes "aur_x"))
        one_token [])
authenticate_token-revoked_example =
    authenticate_token-revoked digest (pos 9) (codes "aur_x") (codes "c_1") one_token [] refl

authenticate_token-create_example :
    let made =
      create_token digest
        (codes "x")
        (codes "tok_2")
        (pos 5)
        (codes "c_1")
        (codes "a_1")
        (codes "context:*" ∷ codes "exec:self" ∷ [])
        (pos 100)
        empty_table
        [] in
    let info : TokenInfo = record {
      id = codes "tok_2";
      container_id = codes "c_1";
      agent_id = codes "a_1";
      scopes = codes "context:*" ∷ codes "exec:self" ∷ [];
      expires_at = expiry (pos 100) (pos 5);
    } in
    (((refers (codes "c_1") empty_table.containers && refers (codes "a_1") empty_table.agents)
        ≡ true)
      × (made.0 ≡ ok (codes "aur_" ++ codes "x", info))
      × ((authenticate_token digest (pos 50) (codes "aur_" ++ codes "x") made.1 []).0 ≡ ok info))
    ⊎ (((refers (codes "c_1") empty_table.containers && refers (codes "a_1") empty_table.agents)
          ≡ false)
        × (made.0 ≡ failed)
        × (made.1 ≡ empty_table))
unfolding ◌+ℤ◌ text_eq
authenticate_token-create_example =
    authenticate_token-create digest (codes "x") (codes "tok_2") (pos 5) (pos 50) (codes "c_1")
      (codes "a_1") (codes "context:*") (codes "exec:self" ∷ []) (pos 100) empty_table refl
      (refl, (refl, tt)) refl
