-- ===== src/Tests/Gateway.antt =====
-- Runs of the gateway's handlers on a group with an owner and an invitation.
use mesh_ml.Prelude.{
  ◌≡◌, refl, String, true, false, none, some, [], ◌∷◌, ◌=ˢ◌, ltb, arith, if◌then◌else◌, ◌≢◌,
}
use mesh_ml.JobQueue.{cancel_job}
use mesh_ml.Tests.Jobs.{three}
use mesh_ml.Gateway.{
  owner, User, Group, GroupInvitation, Job, Dataset, Database, ok, raised, unauthorized, Claims,
  Security, UserRegisterRequest, register_user, login, get_current_user, create_access_token,
  new_user, new_member, is_group, cancel_row, cancel_in_queue, wait, is_again, stopped, select_one,
  add_row, one_or_none, any_row, free_dataset, update_rows, poll,
}
use mesh_ml.Gateway.Counting.{tally}
use mesh_ml.Gateway.Endings.{Ensures}
use mesh_ml.Gateway.Soundness.{IsSound}
use mesh_ml.Gateway.Calls.{serve, Counts, promoting, accepting, serve-IsSound}
use mesh_ml.Gateway.Access.{manages, Respects}
use mesh_ml.Gateway.Outsiders.{serve-Respects}
use mesh_ml.Gateway.Sessions.{register_user-login}
use mesh_ml.Gateway.Waiting.{is_settled, wait_ends, wait-cancel_row}
use mesh_ml.Gateway.Cancelling.{Alike, EndsAs, is_out, cancel_in_queue-cancel_job}

-- A hash that keeps the password, of which all is read, and a token that keeps its claims.
abbrev plain : Security
plain = record {
  read_part = λ p. p;
  hash = λ salt p. p;
  verify = λ q p. p =ˢ q;
  verify-hash = λ salt p q. refl;
  Token = Claims;
  encode = λ c. c;
  decode = λ now c. if ltb c.exp now then none else some c;
  decode-encode = λ now c. refl;
}

abbrev ann : User
ann = record {
  id = "ann";
  email = "ann@mesh";
  hashed_password = "secret";
  full_name = none;
  is_active = true;
  is_superuser = false;
}

abbrev bob : User
bob = record ann { id = "bob"; email = "bob@mesh" }

abbrev team : Group
team = record {
  id = "team";
  name = "Team";
  description = none;
  is_public = false;
  owner_id = "ann";
  created_at = 1;
}

abbrev invitation : GroupInvitation
invitation = record {
  code = "inv";
  group_id = "team";
  created_by = "ann";
  max_uses = some 1;
  current_uses = 0;
  expires_at = 100;
  created_at = 1;
}

abbrev training : Job
training = record {
  id = "job";
  group_id = "team";
  model_id = none;
  dataset_id = some "photos";
  config = [];
  status = "pending";
  error_message = none;
  created_by = "ann";
}

abbrev photos : String → Dataset
photos status = record {
  id = "photos";
  format = "imagefolder";
  gcs_path = some "photos";
  num_samples = none;
  status = status;
}

abbrev site : Database
site = record {
  users = ann ∷ [];
  groups = team ∷ [];
  members = new_member 1 "m1" "team" (some "ann") none owner ∷ [];
  invitations = invitation ∷ [];
  workers = [];
  jobs = training ∷ [];
  datasets = photos "uploading" ∷ [];
}

site-IsSound : IsSound site
unfolding tally
site-IsSound = record {
  members = record {
    ids = λ i. ground arith;
    users = λ g u. ground arith;
    workers = λ g w. ground arith;
    grouped = λ g none_there. ground arith;
  };
  groups = λ g. ground arith;
  codes = λ c. ground arith;
  within = refl;
  workers = λ w. omega arith;
}

serve-IsSound_example :
    Ensures
      (λ after. IsSound after × Counts (accepting "m2" "w" "inv") site after)
      (serve 5 bob (accepting "m2" "w" "inv") site)
serve-IsSound_example = serve-IsSound 5 bob (accepting "m2" "w" "inv") site site-IsSound

team_is_there : tally (is_group "team") (site.groups) ≢ 0
unfolding tally
team_is_there h = absurd (omega arith)

bob_is_outside : tally (manages "team" bob.id) site.members ≡ 0
unfolding tally
bob_is_outside = refl

serve-Respects_example :
    Ensures (Respects "bob" "team" site) (serve 5 bob (promoting "team" "bob" owner) site)
serve-Respects_example =
    serve-Respects 5 bob (promoting "team" "bob" owner) site "team" site-IsSound team_is_there
      bob_is_outside

abbrev account : UserRegisterRequest
account = record { email = "bob@mesh"; password = "secret"; full_name = none }

abbrev with_bob : Database
with_bob = record site { users = ann ∷ new_user plain "bob" "salt" account ∷ [] }

bob_registers :
    register_user plain "bob" "salt" account site
    ≡ ok (with_bob, new_user plain "bob" "salt" account)
unfolding register_user select_one add_row one_or_none
bob_registers = refl

register_user-login_example :
    (login plain 5 "bob@mesh" "guess" with_bob ≡ raised unauthorized)
    × (get_current_user plain 9 (create_access_token plain 5 "bob" "bob@mesh") with_bob
        ≡ ok (new_user plain "bob" "salt" account))
register_user-login_example =
    register_user-login plain "bob" "salt" "guess" account 5 9 site bob_registers

abbrev uploaded : Database
uploaded = record site { datasets = photos "uploaded" ∷ [] }

some_settled : any_row (is_settled "photos") (site ∷ uploaded ∷ []) ≡ true
unfolding select_one one_or_none
some_settled = refl

wait_ends_example : is_again (wait "job" "photos" (site ∷ uploaded ∷ [])) ≡ false
wait_ends_example = wait_ends "job" "photos" (site ∷ uploaded ∷ []) some_settled

abbrev without_job : Database
without_job = record site { jobs = record training { status = "cancelled" } ∷ [] }

ann_cancels : cancel_row "job" "ann" site ≡ ok without_job
unfolding cancel_row select_one one_or_none update_rows free_dataset
ann_cancels = refl

waits : is_again (wait "job" "photos" (site ∷ [])) ≡ true
unfolding wait poll select_one one_or_none
waits = refl

wait-cancel_row_example : wait "job" "photos" (site ∷ without_job ∷ uploaded ∷ []) ≡ stopped
wait-cancel_row_example =
    wait-cancel_row "job" "photos" "ann" (site ∷ []) (uploaded ∷ []) site waits ann_cancels

cancel_in_queue-cancel_job_example :
    Alike (cancel_in_queue "2" three) (cancel_job 9 "2" "stop" three).0
    × (EndsAs (is_out "2" three) "2" three (cancel_in_queue "2" three)
        × EndsAs (is_out "2" three) "2" three (cancel_job 9 "2" "stop" three).0)
cancel_in_queue-cancel_job_example = cancel_in_queue-cancel_job 9 "2" "stop" three
