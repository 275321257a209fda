-- ===== src/Platform/Revisions.antt =====
-- Platform changes of one tenant against one revision.
use Prim.Native.String.{String}
use llama_index_rag.Base.{
  Key, ℕ, suc, ◌≡◌, sym, ◌∙◌, ap, inl, inr, Option, none, some, Result, ok, err, Error, arith,
  Result-cases,
}
use llama_index_rag.Domain.Lifecycle.{TenantState}
use llama_index_rag.Access.Identity.{AuthenticatedSubject}
use llama_index_rag.Config.{TenantRecord, Store, Outside, Call}
use llama_index_rag.Platform.{update_metadata, transition}
use llama_index_rag.Platform.Moves.{row_of, transition-Changes, update_metadata-Changes}

pub data PlatformRequest : Type 0 where
  moves : Call → AuthenticatedSubject → Key → TenantState → ℕ → String → PlatformRequest
  renames : Call → AuthenticatedSubject → Key → ℕ → Option String → PlatformRequest

unfoldable pub perform : Outside → (String → String) → PlatformRequest → Store → Result Store
perform outside strip (moves call subject tenant_id target expected reason) store =
    transition outside strip call subject tenant_id target expected reason store
perform outside strip (renames call subject tenant_id expected name) store =
    update_metadata outside strip call subject tenant_id expected name store

abbrev pub tenant_in : PlatformRequest → Key
tenant_in (moves call subject tenant_id target expected reason) = tenant_id
tenant_in (renames call subject tenant_id expected name) = tenant_id

abbrev pub expects : PlatformRequest → ℕ
expects (moves call subject tenant_id target expected reason) = expected
expects (renames call subject tenant_id expected name) = expected

abbrev revision_of : Option TenantRecord → Option ℕ
revision_of none = none
revision_of (some t) = some t.revision

perform-revision :
    (outside : Outside) (strip : String → String) (r : PlatformRequest) (store : Store)
    {after : Store}
    → perform outside strip r store ≡ ok after
    → (revision_of (row_of (tenant_in r) store) ≡ some (expects r))
      × (revision_of (row_of (tenant_in r) after) ≡ some (suc (expects r)))
unfolding perform
perform-revision outside strip (moves call subject tenant_id target expected reason) store h =
    let (tenant, (found, (exact, row))) =
      transition-Changes outside strip call subject tenant_id target expected reason store h in
    (ap revision_of found ∙ ap some exact, ap revision_of row ∙ ap (λ n. some (suc n)) exact)
perform-revision outside strip (renames call subject tenant_id expected name) store h =
    let (_, (tenant, (found, (exact, row)))) =
      update_metadata-Changes outside strip call subject tenant_id expected name store h in
    (ap revision_of found ∙ ap some exact, ap revision_of row ∙ ap (λ n. some (suc n)) exact)

-- After a transition or a change of the metadata of a tenant has succeeded, any such request for
-- the tenant that expects the same revision is refused.
pub second_change_refused :
    (outside : Outside) (strip : String → String) (r q : PlatformRequest) (store : Store)
    {after : Store}
    → perform outside strip r store ≡ ok after
    → tenant_in q ≡ tenant_in r
    → expects q ≡ expects r
    → (e : Error) × (perform outside strip q after ≡ err e)
second_change_refused outside strip r q store {after} done same_tenant same_revision =
    elim (Result-cases (perform outside strip q after)) [
      | inr refused ↦ refused
      | inl (last, again) ↦
          let has = (perform-revision outside strip r store done).1 in
          let wants = (perform-revision outside strip q after again).0 in
          absurd (
            distinct (
              sym has
              ∙ (ap (λ k. revision_of (row_of k after)) (sym same_tenant)
                  ∙ (wants ∙ ap some same_revision))))
    ]
  where
    distinct : {n : ℕ} → some (suc n) ≡ some n → ⊥
    distinct {n} h = ground arith
