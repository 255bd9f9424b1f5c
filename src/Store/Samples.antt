-- ===== src/Store/Samples.antt =====
-- A directory with one approval, and the theorems at it.
use solutions_studio.Base.{◌≡◌, refl, true, some, [], ◌∷◌, every, any, find}
use solutions_studio.Base.Text.{trim, to_lower, Text-discrete, has}
use solutions_studio.Base.Numbers.{compare_code_units}
use solutions_studio.Base.Maps.{get, set}
use solutions_studio.Base.Counts.{sort}
use solutions_studio.Base.Result.{ok, throw}
use solutions_studio.Ids.{
  assert_non_empty, is_hex, is_sha256, is_candidate_sha, create_actor_id, create_candidate_sha,
  create_validation_run_id, create_governance_approval_id,
}
use solutions_studio.Ids.Instant.{is_valid_instant, create_instant}
use solutions_studio.Governance.Factories.{
  create_candidate_approval_record, supersede_candidate_approval_record,
}
use solutions_studio.Governance.Factories.Lifecycle.{created}
use solutions_studio.Governance.Samples.Approvals.{props, approval, approval_created}
use solutions_studio.Store.Schema.{
  immutable_record_conflict, parse_approval, recreate, recreate_active, recreate_status,
}
use solutions_studio.Store.Approvals.{
  Host, Files, assert_safe_identifier, resolve_store_path, get_governance_approval, passes, collect,
  list_governance_approvals, get_active_governance_approval, write_exclusive, check_no_active,
  find_expected, roll_back, write_or_roll_back, save_governance_approval, replace_expected,
  replace_governance_approval,
}
use solutions_studio.Store.Laws.{IsConsistent}
use solutions_studio.Store.History.{
  empty, next, saved, Reachable-IsConsistent, replace_governance_approval_fails,
}
use solutions_studio.Store.Recreate.{IsKnown, IsKnownStatus}
use solutions_studio.Store.RoundTrip.{get-save_governance_approval}

abbrev host : Host
host = record { is_email = λ _. true; read_dir = λ ids. ids; locale_compare = compare_code_units }

abbrev files : Files
files = (approval.id, approval) ∷ []

-- What runs in the tests.
program : Unit {0}
unfolding assert_safe_identifier resolve_store_path get_governance_approval
    list_governance_approvals get_active_governance_approval write_exclusive check_no_active
    find_expected roll_back write_or_roll_back save_governance_approval replace_expected
    replace_governance_approval collect passes parse_approval recreate recreate_active
    recreate_status create_candidate_approval_record supersede_candidate_approval_record
    create_actor_id create_candidate_sha create_validation_run_id create_governance_approval_id
    assert_non_empty is_hex is_sha256 is_candidate_sha create_instant is_valid_instant
    compare_code_units get set sort find any every has trim to_lower Text-discrete
program = tt

approval_saved : save_governance_approval host approval [] ≡ (files, ok tt)
unfolding program
approval_saved = refl

approval-IsKnown : IsKnown approval
unfolding program IsKnownStatus
approval-IsKnown = record { actor = refl; decided_at = refl; status = tt }

Reachable-IsConsistent_example : IsConsistent host files
Reachable-IsConsistent_example =
    Reachable-IsConsistent host files (λ ids id. refl)
      (next empty
        (saved approval (ok tt) (created props approval_created) approval-IsKnown approval_saved))

-- The new record has the identifier of the old one: its write is refused, and rolled back.
rolled_back :
    replace_governance_approval host approval (some approval.id) files
    ≡ (files, throw (immutable_record_conflict approval.id))
unfolding program
rolled_back = refl

replace_governance_approval_fails_example : files ≡ files
replace_governance_approval_fails_example =
    replace_governance_approval_fails host approval (some approval.id) files files
      (immutable_record_conflict approval.id) Reachable-IsConsistent_example rolled_back

get-save_governance_approval_example :
    get_governance_approval host approval.id files ≡ ok (some approval)
get-save_governance_approval_example =
    get-save_governance_approval host approval [] files (created props approval_created)
      approval-IsKnown approval_saved
