-- ===== src/Github/Router/Setup.antt =====
-- NewRouter of internal/githubapp/router.go: the routes that it accepts. The map of routes is the list
-- of its entries in the order of the iteration; `to_lower` is strings.ToLower, and `profile_type` the
-- field of the client.
use mathlib.Core.List.{append_assoc, append-nil}
use maintainer_cockpit.Prelude.{
  map, sym, ◌∙◌, String, Bool, true, false, Option, none, some, List, [], ◌∷◌, ◌++◌, ◌||◌, not,
  str_eq, contains, trim_space, is_member, Result, ok, ◌>>◌, reject, All, All-append, ◌≡◌, refl,
  arith, subst, eq_iff,
}
use maintainer_cockpit.Github.Router.{
  ProfileType, github_app, fine_grained_pat, unknown_type, Profile,
}

pub data RouterError : Type 0 where
  invalid_owner duplicate_owner no_profiles invalid_profile : String → RouterError
  unknown_profile_type mismatched_profile repeated_profile : String → RouterError

-- The profiles of an owner.
pub record Route (Client : Type 0) : Type 0 where
  pub owner : String
  pub profiles : List (Profile Client)

abbrev is_known : ProfileType → Bool
is_known github_app = true
is_known fine_grained_pat = true
is_known (unknown_type t) = false

abbrev same_type : ProfileType → ProfileType → Bool
same_type github_app github_app = true
same_type fine_grained_pat fine_grained_pat = true
same_type (unknown_type s) (unknown_type t) = str_eq s t
same_type _ _ = false

module _ {Client : Type 0} (to_lower : String → String) (profile_type : Client → ProfileType) where
  abbrev has_client : Option Client → Bool
  has_client none = false
  has_client (some c) = true

  abbrev matches_client : ProfileType → Option Client → Bool
  matches_client t none = false
  matches_client t (some c) = same_type (profile_type c) t

  -- The checks of an owner's profiles, on the names seen so far.
  unfoldable pub check_profiles :
      String → List String → List (Profile Client) → Result RouterError (Unit {0})
  check_profiles owner names [] = ok tt
  check_profiles owner names (p ∷ ps) = do
    reject (str_eq p.name "" || not (has_client p.client)) (invalid_profile owner)
    reject (not (is_known p.type)) (unknown_profile_type p.name)
    reject (not (matches_client p.type p.client)) (mismatched_profile p.name)
    reject (is_member p.name names) (repeated_profile p.name)
    check_profiles owner (p.name ∷ names) ps

  abbrev has_owner : String → List (Route Client) → Bool
  has_owner o [] = false
  has_owner o (r ∷ rs) = str_eq r.owner o || has_owner o rs

  abbrev is_nil : List (Profile Client) → Bool
  is_nil [] = true
  is_nil (p ∷ ps) = false

  -- The rounds over the routes, on the routes copied so far.
  unfoldable pub copy_routes :
      List (Route Client) → List (Route Client) → Result RouterError (List (Route Client))
  unfolding trim_space contains check_profiles
  copy_routes copied [] = ok copied
  copy_routes copied (r ∷ rs) = do
    let canonical = to_lower (trim_space r.owner)
    reject (str_eq canonical "" || contains canonical "/") (invalid_owner r.owner)
    reject (has_owner canonical copied) (duplicate_owner r.owner)
    reject (is_nil r.profiles) (no_profiles r.owner)
    check_profiles r.owner [] r.profiles
    copy_routes (copied ++ record { owner = canonical; profiles = r.profiles } ∷ []) rs

  -- NewRouter
  unfoldable pub new_router : List (Route Client) → Result RouterError (List (Route Client))
  unfolding copy_routes
  new_router routes = copy_routes [] routes

  -- Profiles with distinct names that are not in `names`, each with a client of its type.
  abbrev pub ProfilesOk : List String → List (Profile Client) → Type 0
  ProfilesOk names [] = Unit
  ProfilesOk names (p ∷ ps) =
      (str_eq p.name "" ≡ false)
      × (is_known p.type ≡ true)
      × (matches_client p.type p.client ≡ true)
      × (is_member p.name names ≡ false)
      × ProfilesOk (p.name ∷ names) ps

  abbrev pub RouteOk : Route Client → Type 0
  RouteOk r =
      (str_eq r.owner "" ≡ false)
      × (contains r.owner "/" ≡ false)
      × (is_nil r.profiles ≡ false)
      × ProfilesOk [] r.profiles

  check_profiles-ProfilesOk :
      (owner : String) (names : List String) (ps : List (Profile Client))
      → check_profiles owner names ps ≡ ok tt
      → ProfilesOk names ps
  unfolding check_profiles
  check_profiles-ProfilesOk owner names [] h = tt
  check_profiles-ProfilesOk owner names (p ∷ ps) h = (
    ground arith,
    ground arith,
    ground arith,
    ground arith,
    check_profiles-ProfilesOk owner (p.name ∷ names) ps (ground arith),
  )

  copy_routes-RouteOk :
      (copied rs out : List (Route Client))
      → copy_routes copied rs ≡ ok out
      → All RouteOk copied
      → All RouteOk out
  unfolding copy_routes
  copy_routes-RouteOk copied [] out h v =
      let same : copied ≡ out = ground arith in subst (λ rs. All RouteOk rs) same v
  copy_routes-RouteOk copied (r ∷ rs) out h v =
      copy_routes-RouteOk
        (copied ++ record { owner = to_lower (trim_space r.owner); profiles = r.profiles } ∷ []) rs
        out (ground arith)
        (All-append RouteOk copied
          (record { owner = to_lower (trim_space r.owner); profiles = r.profiles } ∷ []) v
          (
            (
              ground arith,
              ground arith,
              ground arith,
              check_profiles-ProfilesOk r.owner [] r.profiles (ground arith),
            ),
            tt,
          ))

  abbrev pub DistinctOwners : List (Route Client) → Type 0
  DistinctOwners [] = Unit
  DistinctOwners (r ∷ rs) = (has_owner r.owner rs ≡ false) × DistinctOwners rs

  has_owner-append :
      (o : String) (rs : List (Route Client)) (r : Route Client)
      → has_owner o rs ≡ false
      → str_eq r.owner o ≡ false
      → has_owner o (rs ++ r ∷ []) ≡ false
  has_owner-append o [] r h k = ground arith
  has_owner-append o (q ∷ rs) r h k = ground (arith, has_owner-append o rs r)

  append-DistinctOwners :
      (rs : List (Route Client)) (r : Route Client)
      → DistinctOwners rs
      → has_owner r.owner rs ≡ false
      → DistinctOwners (rs ++ r ∷ [])
  append-DistinctOwners [] r d h = (refl, tt)
  append-DistinctOwners (q ∷ rs) r d h = (
    has_owner-append q.owner rs r d.0
        (ground (arith, eq_iff q.owner r.owner, eq_iff r.owner q.owner)),
    append-DistinctOwners rs r d.1 (ground arith),
  )

  copy_routes-DistinctOwners :
      (copied rs out : List (Route Client))
      → copy_routes copied rs ≡ ok out
      → DistinctOwners copied
      → DistinctOwners out
  unfolding copy_routes
  copy_routes-DistinctOwners copied [] out h d =
      let same : copied ≡ out = ground arith in subst (λ rs. DistinctOwners rs) same d
  copy_routes-DistinctOwners copied (r ∷ rs) out h d =
      copy_routes-DistinctOwners
        (copied ++ record { owner = to_lower (trim_space r.owner); profiles = r.profiles } ∷ []) rs
        out (ground arith)
        (append-DistinctOwners copied
          (record { owner = to_lower (trim_space r.owner); profiles = r.profiles }) d
          (ground arith))

  -- The route with its owner trimmed and in lower case.
  abbrev pub canonical_route : Route Client → Route Client
  canonical_route r = record { owner = to_lower (trim_space r.owner); profiles = r.profiles }

  copy_routes-canonical :
      (copied rs out : List (Route Client))
      → copy_routes copied rs ≡ ok out
      → out ≡ copied ++ map canonical_route rs
  unfolding copy_routes
  copy_routes-canonical copied [] out h =
      let same : copied ≡ out = ground arith in sym same ∙ sym (append-nil copied)
  copy_routes-canonical copied (r ∷ rs) out h =
      copy_routes-canonical (copied ++ canonical_route r ∷ []) rs out (ground arith)
      ∙ append_assoc copied (canonical_route r ∷ []) (map canonical_route rs)

  -- The routes of a router are the given ones, in the order of the iteration, each with its own
  -- profiles and with its owner trimmed and in lower case. These owners are distinct, not empty and
  -- contain no slash, and each has at least one profile; its profiles have names, distinct for the
  -- owner, known types, and a client of their type.
  pub new_router-RouteOk :
      (routes out : List (Route Client))
      → new_router routes ≡ ok out
      → (out ≡ map canonical_route routes) × All RouteOk out × DistinctOwners out
  unfolding new_router
  new_router-RouteOk routes out h = (
    copy_routes-canonical [] routes out h,
    copy_routes-RouteOk [] routes out h tt,
    copy_routes-DistinctOwners [] routes out h tt,
  )
