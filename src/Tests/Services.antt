-- ===== src/Tests/Services.antt =====
-- The theorems on the service, at the store in memory.
use status_list_server.Base.{true, pos, List, [], ◌∷◌, some, Outcome, ok, ◌≡◌, refl}
use status_list_server.Domain.Model.{StatusListError, StatusListRecord}
use status_list_server.Domain.Service.{
  insert_published, finish_update, publish_status_list, update_statuses, get_status_list,
}
use status_list_server.Domain.Service.Contract.{Puts, IsRepo}
use status_list_server.Domain.Service.Effects.{
  Finishes, finish_update-Finishes, Publishes, publish_status_list-Publishes,
}
use status_list_server.Domain.Service.Updates.{Updates, update_statuses-Updates}
use status_list_server.Domain.Service.History.{
  Advances, Step, reading, inserting, take_steps, take_steps-Advances, finish_update-no_lost_update,
}
use status_list_server.Outbound.Memory.{Store}
use status_list_server.Outbound.Memory.StatusLists as Lists
use status_list_server.Outbound.Memory.Cache as Cache
use status_list_server.Outbound.Memory.Contract.{records, adapter-IsRepo, cache-IsApart}
use status_list_server.Base.Dict
use status_list_server.Tests.Fixture.{
  tallies, batch, alice, limits, stored, revised, one_list, in_memory,
}

-- Another list is published and this one is read between the read and the commit.
abbrev steps : List Step
steps = inserting (record stored { list_id = "m" }) 600 "x" ∷ reading "l" ∷ []

abbrev landed : Outcome StatusListError StatusListRecord × Store
landed =
    finish_update in_memory tallies revised (pos 50) 600 "y"
      (take_steps in_memory tallies steps one_list)

abbrev before : Store
before = take_steps in_memory tallies steps one_list

landed-ok : finish_update in_memory tallies revised (pos 50) 600 "y" before ≡ (ok revised, landed.1)
unfolding finish_update take_steps Lists.update_with_snapshot Dict.lookup get_status_list Cache.get
    insert_published Lists.insert_with_snapshot Lists.find Dict.insert Cache.put Cache.invalidate
landed-ok = refl

stored_here : records one_list "l" ≡ some stored
unfolding Dict.lookup
stored_here = refl

finish_update-no_lost_update_example :
    (records before "l" ≡ some stored) × Puts records revised before landed.1
finish_update-no_lost_update_example =
    finish_update-no_lost_update records in_memory tallies (adapter-IsRepo true) cache-IsApart
      stored revised 600 "y" steps one_list landed.1 revised (tt, (tt, tt)) stored_here landed-ok

take_steps-Advances_example : Advances (records one_list "l") (records before "l")
take_steps-Advances_example =
    take_steps-Advances records in_memory tallies (adapter-IsRepo true) cache-IsApart steps one_list
      "l" (tt, (tt, tt))

finish_update-Finishes_example :
    Finishes records in_memory tallies
      (adapter-IsRepo true)
      cache-IsApart
      revised
      (pos 50)
      one_list
      (finish_update in_memory tallies revised (pos 50) 600 "y" one_list)
finish_update-Finishes_example =
    finish_update-Finishes records in_memory tallies (adapter-IsRepo true) cache-IsApart revised
      (pos 50) 600 "y" one_list

update_statuses-Updates_example :
    Updates records in_memory tallies
      (adapter-IsRepo true)
      cache-IsApart
      alice
      "l"
      batch
      limits
      (pos 60)
      one_list
      (update_statuses in_memory tallies alice "l" batch limits (pos 60) "y" one_list)
update_statuses-Updates_example =
    update_statuses-Updates records in_memory tallies (adapter-IsRepo true) cache-IsApart alice "l"
      batch limits (pos 60) "y" one_list

publish_status_list-Publishes_example :
    Publishes records in_memory tallies
      (adapter-IsRepo true)
      cache-IsApart
      "m"
      alice
      "sub"
      batch
      limits
      (pos 60)
      one_list
      (publish_status_list in_memory tallies "m" alice "sub" batch limits (pos 60) "y" one_list)
publish_status_list-Publishes_example =
    publish_status_list-Publishes records in_memory tallies (adapter-IsRepo true) cache-IsApart "m"
      alice "sub" batch limits (pos 60) "y" one_list

adapter-IsRepo_example : IsRepo records (Lists.adapter true)
adapter-IsRepo_example = adapter-IsRepo true
