-- ===== src/Draft/Tests.antt =====
-- A concrete draft, and the properties applied to it.
use corpershub_application.Base.{refl, some, true, ◌≡◌, none}
use corpershub_application.Draft.{own_draft, empty_draft, set_draft, save_draft}
use corpershub_application.Draft.Sample.{plain, opened, edited}
use corpershub_application.Draft.Owner.{draft_isolated}

draft_isolated_example :
    ((own_draft plain
        (some "obi@example.com")
        (set_draft plain (some "ada@example.com") edited opened)).draft
      ≡ empty_draft)
    × ((own_draft plain
          (some "obi@example.com")
          (set_draft plain (some "ada@example.com") edited opened)).item
        ≡ save_draft plain true empty_draft (some "obi@example.com") none)
draft_isolated_example =
    draft_isolated plain "ada@example.com" refl opened refl edited (some "obi@example.com") refl
