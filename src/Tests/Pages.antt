-- ===== src/Tests/Pages.antt =====
-- Two pages of one task each.
use taskpilot_assessment.Prelude.{◌≡◌, refl, true, some, [], ◌∷◌, ◌++◌, arith}
use taskpilot_assessment.Models.{Task, pending}
use taskpilot_assessment.Database.{has_id}
use taskpilot_assessment.Database.Memory.{Table, memory}
use taskpilot_assessment.Service.{list_tasks}
use taskpilot_assessment.Service.Queries.{IsListed}
use taskpilot_assessment.Service.Pages.{AreApart, list_tasks_pages}
use taskpilot_assessment.Tests.Data.{due, flaky, stuck, service}

abbrev late : Task
late = record flaky { created_at = 850000000 }

abbrev store : Table
store = record {
  rows = due ∷ stuck ∷ late ∷ [];
  distinct = (refl, (refl, (refl, tt)));
  keyed = (refl, (refl, (refl, tt)));
}

store-AreApart : AreApart memory (some pending) store
unfolding service
store-AreApart t u h k e = ground arith

list_tasks_pages_example :
    ((list_tasks memory (some pending) 1 0 store).0
        ++ (list_tasks memory (some pending) 1 1 store).0
      ≡ (list_tasks memory (some pending) 2 0 store).0)
    × ((t : Task)
        → IsListed memory (some pending) store t
        → has_id t.id
            (list_tasks memory
              (some pending)
              (list_tasks memory (some pending) 1 0 store).1
              0
              store).0
          ≡ true)
list_tasks_pages_example = list_tasks_pages memory (some pending) store store-AreApart 1 1 0

both_pages : (list_tasks memory (some pending) 2 0 store).0 ≡ late ∷ due ∷ []
unfolding service
both_pages = refl
