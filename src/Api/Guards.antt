-- ===== src/Api/Guards.antt =====
-- What the middleware keeps from the handlers.
use simulator.Common.{
  ◌≡◌, refl, ap, ◌∙◌, ◌≢◌, ◌↔◌, inl, inr, true, false, Option, some, arith, Bool-cases,
  Option-cases,
}
use Prim.Native.String.{String}
use simulator.Common.Maps.{text_key}
use simulator.Auth.{Claims, TokenManager, role_admin, same_text, bearer, parse_token, require_auth}
use simulator.Runner.{SimulationInfo, get_info}
use simulator.Api.{Server, Outside, Response, api_error, owns}
use simulator.Api.Routes.{
  Target, simulation_route, Request, ownership, through, handle_target, routes, serve,
}

same_text_iff : (a b : String) → (same_text a b ≡ true) ↔ (a ≡ b)
same_text_iff a b = text_key.same_iff a b

module _ {W S D E : Type 0} (o : Outside W S D E) (s : Server W S D E) (t : TokenManager)
    (q : Request D) where
  -- A request with a valid access token reaches the route with the claims of the token.
  pub authenticated_routed :
      (c : Claims)
      → s.tokens ≡ some t
      → bearer q.authorization ≢ ""
      → parse_token o.jwt t (bearer q.authorization) "access" q.now ≡ some c
      → serve o s q ≡ routes o (some c) q.below_limit s q.route
  unfolding serve require_auth through
  authenticated_routed c on given valid =
      elim (Bool-cases (same_text (bearer q.authorization) "")) [
        | inl empty ↦ absurd (given ((same_text_iff (bearer q.authorization) "").0 empty))
        | inr some_text ↦ rw (on, some_text, valid) refl
      ]

  -- owns, for a user who is no administrator and a simulation that is not theirs.
  pub owns_other :
      (c : Claims) (info : SimulationInfo D)
      → c.role ≢ role_admin
      → info.owner_id ≢ some c.user_id
      → owns (some c) info ≡ false
  unfolding owns
  owns_other c info user other = elim (Bool-cases (same_text c.role role_admin)) [
    | inl admin ↦ absurd (user ((same_text_iff c.role role_admin).0 admin))
    | inr e ↦ elim (Option-cases info.owner_id) [
      | inl unowned ↦ rw (e, unowned) refl
      | inr (u, owned) ↦ elim (Bool-cases (same_text u c.user_id)) [
        | inl same ↦ absurd (other (owned ∙ ap (λ x. some x) ((same_text_iff u c.user_id).0 same)))
        | inr different ↦ rw (e, owned, different) refl
      ]
    ]
  ]

  ownership_refuses :
      (c : Option Claims) (id : String) (info : SimulationInfo D)
      (next : Response D × Server W S D E)
      → get_info s.manager id ≡ some info
      → owns c info ≡ false
      → ownership c s id next ≡ (api_error 404 "not_found", s)
  unfolding ownership
  ownership_refuses c id info next known other = ground arith

  -- A user who is no administrator, with a valid access token, on any route of a simulation that
  -- exists and is not theirs: the answer is that it is not found, and nothing changes.
  pub non_owner_refused :
      (c : Claims) (id : String) (goal : Target D) (info : SimulationInfo D)
      → s.tokens ≡ some t
      → bearer q.authorization ≢ ""
      → parse_token o.jwt t (bearer q.authorization) "access" q.now ≡ some c
      → c.role ≢ role_admin
      → q.route ≡ simulation_route id goal
      → get_info s.manager id ≡ some info
      → info.owner_id ≢ some c.user_id
      → serve o s q ≡ (api_error 404 "not_found", s)
  unfolding routes
  non_owner_refused c id goal info on given valid user route known other =
      authenticated_routed c on given valid
      ∙ ap (λ r. routes o (some c) q.below_limit s r) route
      ∙ ownership_refuses (some c) id info (handle_target o q.below_limit s id goal) known
          (owns_other c info user other)
