-- ===== src/Config/Requests.antt =====
-- Requests that change the configuration of a tenant, one after the other.
use llama_index_rag.Base.{
  Key, ℕ, suc, ◌≡◌, sym, ◌∙◌, ap, inl, inr, Bool, true, some, List, [], ◌∷◌, Error, All-get_elem?,
  get_elem?, Result, ok, err, Result-cases, arith,
}
use llama_index_rag.Domain.Message.{Payload}
use llama_index_rag.Access.Identity.{RequestIdentity}
use llama_index_rag.Config.{
  ConfigVersion, Store, Outside, Call, is_active_version, create_version, activate_version,
  rollback,
}
use llama_index_rag.Config.Active.{pointed, IsPointed, IsSettled}
use llama_index_rag.Config.Effect.{
  revision_of, Advanced, create-Advanced, activate_version-Advanced, rollback-Advanced,
}

-- A request to the service.
pub data Request : Type 0 where
  creates : Call → RequestIdentity → Payload → ℕ → Bool → Request
  activates : Call → RequestIdentity → Key → ℕ → Request
  rolls_back : Call → RequestIdentity → Key → ℕ → Request

unfoldable pub serve : Outside → Request → Store → Result Store
serve outside (creates call identity raw expected activated) store =
    create_version outside call identity raw expected activated store
serve outside (activates call identity version_id expected) store =
    activate_version outside call identity version_id expected store
serve outside (rolls_back call identity version_id expected) store =
    rollback outside call identity version_id expected store

abbrev tenant_in : Request → Key
tenant_in (creates call identity raw expected activated) = identity.tenant_id
tenant_in (activates call identity version_id expected) = identity.tenant_id
tenant_in (rolls_back call identity version_id expected) = identity.tenant_id

abbrev expects : Request → ℕ
expects (creates call identity raw expected activated) = expected
expects (activates call identity version_id expected) = expected
expects (rolls_back call identity version_id expected) = expected

serve-Advanced :
    (outside : Outside) (r : Request) (store : Store) {after : Store}
    → serve outside r store ≡ ok after
    → Advanced (tenant_in r) (expects r) store after
unfolding serve
serve-Advanced outside (creates call identity raw expected activated) store h =
    create-Advanced outside call identity raw expected activated store h
serve-Advanced outside (activates call identity version_id expected) store h =
    activate_version-Advanced outside call identity version_id expected store h
serve-Advanced outside (rolls_back call identity version_id expected) store h =
    rollback-Advanced outside call identity version_id expected store h

-- Requests one after the other; a request that fails leaves the store.
unfoldable pub serve_all : Outside → List Request → Store → Store
serve_all outside [] store = store
serve_all outside (r ∷ rs) store =
    serve_all outside rs (elim (serve outside r store) [ err _ ↦ store | ok after ↦ after ])

serve_all-IsSettled :
    (outside : Outside) (rs : List Request) (store : Store)
    → IsSettled store
    → IsSettled (serve_all outside rs store)
unfolding serve_all
serve_all-IsSettled outside [] store h = h
serve_all-IsSettled outside (r ∷ rs) store h = elim (Result-cases (serve outside r store)) [
  | inl (after, done) ↦
      rw done (serve_all-IsSettled outside rs after ((serve-Advanced outside r store done).1.1 h))
  | inr (e, refused) ↦ rw refused (serve_all-IsSettled outside rs store h)
]

-- Of a store in which a version is active only where its tenant points to it, whatever requests
-- create, activate and roll back versions, for whatever tenants: two active versions of one tenant
-- are one version.
pub one_version_active :
    (outside : Outside) (rs : List Request) (store : Store)
    → IsSettled store
    → (i j : ℕ) (v w : ConfigVersion) → get_elem? (serve_all outside rs store).versions i ≡ some v
    → get_elem? (serve_all outside rs store).versions j ≡ some w
    → is_active_version v.state ≡ true
    → is_active_version w.state ≡ true
    → v.tenant_id ≡ w.tenant_id
    → v.id ≡ w.id
unfolding IsSettled
one_version_active outside rs store h i j v w at_i at_j active_v active_w same =
    let final = serve_all outside rs store in
    let settled = serve_all-IsSettled outside rs store h in
    let pv = All-get_elem? (IsPointed final.tenants) final.versions i v settled at_i active_v in
    let pw = All-get_elem? (IsPointed final.tenants) final.versions j w settled at_j active_w in
    some-injective (sym pv ∙ ap (pointed final.tenants) same ∙ pw)
  where
    some-injective : {a b : Key} → some a ≡ some b → a ≡ b
    some-injective h = cc

-- After a request has succeeded, every request for its tenant that expects the same revision is
-- refused.
pub second_request_refused :
    (outside : Outside) (r q : Request) (store : Store) {after : Store}
    → serve outside r store ≡ ok after
    → tenant_in q ≡ tenant_in r
    → expects q ≡ expects r
    → (e : Error) × (serve outside q after ≡ err e)
second_request_refused outside r q store {after} done same_tenant same_revision =
    elim (Result-cases (serve outside q after)) [
      | inl (last, again) ↦
          let has = (serve-Advanced outside r store done).1.0 in
          let wants = (serve-Advanced outside q after again).0 in
          absurd (
            distinct (
              sym has
              ∙ (ap (revision_of after.tenants) (sym same_tenant)
                  ∙ (wants ∙ ap some same_revision))))
      | inr refused ↦ refused
    ]
  where
    distinct : {n : ℕ} → some (suc n) ≡ some n → ⊥
    distinct {n} h = ground arith
