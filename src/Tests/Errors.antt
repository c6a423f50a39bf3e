-- ===== src/Tests/Errors.antt =====
-- The properties of the error paths, of the log job's loop and of the topic, at concrete inputs.
use otc_rds_operator.Prelude.{matches_all, some, split, String, ◌≡◌, ◌≢◌, ◌⊎◌, refl, true, none}
use otc_rds_operator.Exec.{State, done, fail, waiting, ◌>>=◌}
use otc_rds_operator.Sql.{create_sql_user}
use otc_rds_operator.Sql.Nil.{create_sql_user-not_done}
use otc_rds_operator.Instance.Provider.{get_provider}
use otc_rds_operator.Instance.Create.{create}
use otc_rds_operator.Instance.Status.{update_status}
use otc_rds_operator.Instance.Dropped.{
  StartsWith, client_errors, create-StartsWith, update_status-StartsWith,
}
use otc_rds_operator.Instance.Update.Logs.{watch_loop, start_job, token_of}
use otc_rds_operator.Instance.Update.Watching.{Revoked, ends_within, watch_loop-ends}
use otc_rds_operator.Instance.Update.Tokens.{IsAccounted, IsExisting, start_job-IsAccounted}
use otc_rds_operator.Cloud.{found, failed}
use otc_rds_operator.Smn.{resource_of_topic}
use otc_rds_operator.Smn.Topic.{topic_urn, resource_of_topic-topic_urn}
use otc_rds_operator.Tests.World.{rds, spec, full_world, locked_world, start, reply, refuse}

abbrev full_start : State full_world
full_start = start full_world tt

-- The watch is cancelled at its first turn.
ends : ends_within full_world 2 tt ≡ true
unfolding ends_within reply
ends = refl

watch_loop-ends_example :
    ((watch_loop full_world 2 "token" "db" full_start).0 ≢ waiting)
    × Revoked "token" (watch_loop full_world 2 "token" "db" full_start).1.trace
watch_loop-ends_example = watch_loop-ends full_world "token" "db" 2 full_start ends

start_job-IsAccounted_example :
    IsAccounted "token" (start_job full_world 2 rds "token" (found tt) full_start)
    ⊎ (IsExisting (found tt)
        × ((start_job full_world 2 rds "token" (found tt) full_start).0 ≡ done tt))
start_job-IsAccounted_example = start_job-IsAccounted full_world 2 rds "token" (found tt) full_start

-- The error and the project are reported in each other's place.
swapped :
    (token_of full_world "project" (failed "denied") full_start).0
    ≡ fail "error getting token in logfetch in scope denied: project"
unfolding token_of ◌>>=◌
swapped = refl

abbrev no_users : State full_world
no_users = record full_start { rds = record rds { spec = record spec { users = none } } }

create_sql_user-not_done_example : (create_sql_user full_world no_users).0 ≢ done tt
create_sql_user-not_done_example = create_sql_user-not_done full_world no_users refl

abbrev locked_start : State locked_world
locked_start = start locked_world tt

abbrev refused : String
refused = "unable to initialize provider: unable to initialize openstack client: 401"

create-refused : (create locked_world locked_start).0 ≡ fail refused
unfolding create ◌>>=◌ get_provider refuse
create-refused = refl

create-StartsWith_example : StartsWith client_errors refused
create-StartsWith_example = create-StartsWith locked_world locked_start refused create-refused

update_status-refused : (update_status locked_world locked_start).0 ≡ fail refused
unfolding update_status ◌>>=◌ get_provider refuse
update_status-refused = refl

update_status-StartsWith_example : StartsWith client_errors refused
update_status-StartsWith_example =
    update_status-StartsWith locked_world locked_start refused update_status-refused

resource_of_topic-topic_urn_example :
    resource_of_topic (topic_urn "urn" "smn" "eu-de" "7c3ec0b3db5f476990043258670caf82" rds)
    ≡ some ("default", "db")
unfolding matches_all
resource_of_topic-topic_urn_example =
    resource_of_topic-topic_urn "urn" "smn" "eu-de" "7c3ec0b3db5f476990043258670caf82" rds refl refl
      refl refl refl refl refl

-- A topic that has another form makes the handler panic.
resource_of_topic-short : resource_of_topic "urn:smn:eu-de" ≡ none
unfolding resource_of_topic split
resource_of_topic-short = refl
