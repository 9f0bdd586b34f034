-- ===== src/Retrieval/Examples.antt =====
-- The maintenance page of the message that the scenario cancels.
use first_brief.Identity.Access.{role_opens}
use first_brief.Operations.Access.{accessible_messages, Annotated}
use first_brief.Prelude.Sorting.{sort_by}
use first_brief.Retrieval.Search.Laws.{Visible, search_messages-Visible}
use first_brief.Retrieval.Search.{Criteria, search_messages}
use first_brief.Prelude.{
  ◌≡◌, refl, true, false, none, some, List, [], leb, any, filter, find, All, length, contains,
  includes,
}
use first_brief.Operations.DeskExamples.{counter, controller, tower}
use first_brief.Prelude.Tables.{lookup}
use first_brief.Retrieval.Maintenance.Complete.{maintenance_offers}
use first_brief.Retrieval.Maintenance.{permitted_maintenance_actions, offers, Action}
use first_brief.Errors.{Gives}
use first_brief.Messaging.Scenarios.{
  desk, manager, live, office, cancelling, cancelling_runs, first_version,
}

maintenance_offers_example :
    Gives
      (permitted_maintenance_actions desk manager live office)
      (λ r. (offers Action.cancel r.0 ≡ true) × (r.1 ≡ office))
unfolding find lookup
maintenance_offers_example =
    maintenance_offers desk live 4 90 office first_version cancelling manager Action.cancel refl
      refl refl refl refl cancelling_runs

abbrev anything : Criteria
anything = record {
  message_id = "";
  kind = none;
  status = none;
  title = "Runway";
  summary = "";
  content = "";
  group = some 3;
  subtype = none;
  read_status = "unread";
  release_from = none;
  release_to = none;
  effective_from = none;
  effective_to = none;
  expiry_from = none;
  expiry_to = none;
  include_archived = false;
  include_future = false;
  sort = "";
  direction = "";
}

abbrev found : List Annotated
found =
    search_messages counter includes (λ sort direction a b. leb a.message.pk b.message.pk)
      controller anything [] tower

found_one : length found ≡ 1
unfolding search_messages sort_by filter accessible_messages role_opens contains any find includes
found_one = refl

search_messages-Visible_example : All (Visible controller tower anything) found
search_messages-Visible_example =
    search_messages-Visible counter includes (λ sort direction a b. leb a.message.pk b.message.pk)
      controller anything [] tower
