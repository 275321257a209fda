-- ===== src/Members/Administrators.antt =====
-- The administrators of a tenant under changes of its authorization.
use llama_index_rag.Base.{
  Key, ◌≡◌, inl, inr, true, false, ◌==◌, some, List, [], ◌∷◌, Result, ok, err, All, Result-cases,
}
use llama_index_rag.Access.Identity.{RequestIdentity}
use llama_index_rag.Config.{Outside, Store}
use llama_index_rag.Members.{Directory, Given, Texts, active_administrator_count}
use llama_index_rag.Members.Changes.{guarded_change-administrator}
use llama_index_rag.Members.Requests.{Change, is_guarded, carry_out, Guarded, carry_out-Guarded}

-- A request: what it is given, who asks, and for what.
abbrev pub Request : Type 0
Request = Given × RequestIdentity × Change

-- A request of a tenant's session for one of the guarded changes.
abbrev pub IsGuardedIn : Key → Request → Type 0
IsGuardedIn t (given, identity, change) =
    (given.session_tenant ≡ some t) × (is_guarded change ≡ true)

-- A change that raises leaves the directory.
abbrev pub directory_of : Directory → Result Directory → Directory
directory_of dir (err _) = dir
directory_of dir (ok after) = after

unfoldable pub carry_out_all :
    Outside → Texts → Store → (Key → Key → Key) → List Request → Directory → Directory
carry_out_all outside texts settings pair [] dir = dir
carry_out_all outside texts settings pair ((given, identity, change) ∷ rest) dir =
    carry_out_all outside texts settings pair rest
      (directory_of dir (carry_out outside texts settings pair given identity change dir))

carry_out-administrator :
    (outside : Outside) (texts : Texts) (settings : Store) (pair : Key → Key → Key) (t : Key)
    (request : Request) (dir : Directory)
    → IsGuardedIn t request
    → (active_administrator_count dir.db t == 0) ≡ false
    → (active_administrator_count
          (directory_of dir
            (carry_out outside texts settings pair request.0 request.1 request.2 dir)).db
          t
        == 0)
      ≡ false
unfolding Guarded
carry_out-administrator outside texts settings pair t (given, identity, change) dir (bound, guarded)
      h =
    elim (Result-cases (carry_out outside texts settings pair given identity change dir)) [
      | inr (e, refused) ↦ rw refused h
      | inl (after, done) ↦
          let (action, (kind, (id, (details, (changed, (_, checked)))))) =
            carry_out-Guarded outside texts settings pair given identity change dir guarded done in
          rw done (
            guarded_change-administrator outside given identity action kind id details changed bound
              checked)
    ]

-- A tenant that has an active administrator keeps one, whatever updates of members, groups, members
-- of groups and roles of groups are asked for in sessions of the tenant, by whomever.
pub administrator_remains :
    (outside : Outside) (texts : Texts) (settings : Store) (pair : Key → Key → Key) (t : Key)
    (requests : List Request) (dir : Directory)
    → All (IsGuardedIn t) requests
    → (active_administrator_count dir.db t == 0) ≡ false
    → (active_administrator_count (carry_out_all outside texts settings pair requests dir).db t
        == 0)
      ≡ false
unfolding carry_out_all
administrator_remains outside texts settings pair t [] dir guarded h = h
administrator_remains outside texts settings pair t ((given, identity, change) ∷ rest) dir guarded
      h =
    administrator_remains outside texts settings pair t rest
      (directory_of dir (carry_out outside texts settings pair given identity change dir)) guarded.1
      (carry_out-administrator outside texts settings pair t (given, identity, change) dir guarded.0
        h)
