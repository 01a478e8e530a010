-- ===== src/Session/Tests.antt =====
-- A session over properties that are numbers: one object, then ranging, then a second object.
use mathlib.Core.List.{Perm}
use near_object_framework.Common.{
  take, ℕ, ◌≡◌, refl, true, false, List, [], ◌∷◌, ◌++◌, none, some, any_of, Every, ◌==◌,
}
use near_object_framework.NearObject.{DoubleEq, NearObject, NearObjectCapabilities, near_object_eq}
use near_object_framework.Session.{
  Session, Event, running, on_session_ended, on_ranging_started, on_ranging_stopped,
  on_session_membership_changed, create, start_ranging, add_near_objects, remove_near_objects,
  end_session, stop_ranging, invoke_event_callback, destroy, received, is_named, is_ranging_active,
  get_near_objects,
}
use near_object_framework.Session.History.{Reach, here, later, starts, adds, ends}
use near_object_framework.Session.Members.{remove_near_objects_lem, add_near_objects_lem}
use near_object_framework.Session.End.{destroy_delivers_all, ended_twice}
use near_object_framework.Session.Whole.{inactive_after_end, start_within_end}
use near_object_framework.TaskQueue
use near_object_framework.TaskQueue.{System}

instance abbrev pub nat_double : DoubleEq ℕ
nat_double = record { double_eq = λ a b. a == b }

abbrev pub object : ℕ → ℕ → NearObject ℕ
object a d = record {
  address = a;
  m_spatial_properties = record {
    distance = some d;
    angle_azimuth = none;
    angle_elevation = none;
    elevation = none;
  };
}

abbrev pub capabilities : NearObjectCapabilities
capabilities = record {
  supports_ranging = true;
  supports_positioning = false;
  supports_secure_device = false;
  supports_secure_channels = false;
}

abbrev pub queue : System (Event ℕ)
queue = record {
  queue = record { runnables = []; state = TaskQueue.State.running };
  worker = TaskQueue.checking;
  notices = 0;
  posted = [];
  ran = [];
  canceled = false;
}

pub queue_created : TaskQueue.create true ≡ some queue
unfolding TaskQueue.create
queue_created = refl

abbrev pub first : List (NearObject ℕ)
first = object 1 10 ∷ []

abbrev pub opened : Session ℕ
opened = create capabilities first queue

abbrev ranging : Session ℕ
ranging = (start_ranging opened).0

-- The second object to add has the value of the member.
abbrev pub offered : List (NearObject ℕ)
offered = object 2 20 ∷ object 3 10 ∷ []

abbrev grown : Session ℕ
grown = (add_near_objects offered ranging).0

ranging-Reach : Reach opened ranging
unfolding create start_ranging TaskQueue.post
ranging-Reach = later here (starts refl)

grown-Reach : Reach opened grown
unfolding create start_ranging add_near_objects TaskQueue.post near_object_eq
grown-Reach = later ranging-Reach (adds offered refl)

grown_members : get_near_objects grown ≡ object 1 10 ∷ object 2 20 ∷ []
unfolding get_near_objects create start_ranging add_near_objects TaskQueue.post near_object_eq
grown_members = refl

remove_near_objects_lem_example :
    let t = (remove_near_objects (object 1 10 ∷ []) grown).0 in
    (removed : List (NearObject ℕ)) × Perm grown.m_near_objects (t.m_near_objects ++ removed)
    × Every (λ o. is_named (object 1 10 ∷ []) o ≡ false) t.m_near_objects
    × Every (λ o. is_named (object 1 10 ∷ []) o ≡ true) removed
    × (t.m_task_queue.posted
        ≡ grown.m_task_queue.posted ++ on_session_membership_changed [] removed ∷ [])
unfolding create start_ranging add_near_objects remove_near_objects TaskQueue.post near_object_eq
remove_near_objects_lem_example = remove_near_objects_lem (object 1 10 ∷ []) grown _ refl

add_near_objects_lem_example :
    (added passed : List (NearObject ℕ)) × Perm offered (added ++ passed)
    × (grown.m_near_objects ≡ ranging.m_near_objects ++ added)
    × (grown.m_task_queue.posted
        ≡ ranging.m_task_queue.posted ++ on_session_membership_changed added [] ∷ [])
    × Every (λ o. any_of (near_object_eq o) ranging.m_near_objects ≡ false) added
    × Every (λ o. any_of (near_object_eq o) ranging.m_near_objects ≡ true) passed
unfolding create start_ranging add_near_objects TaskQueue.post near_object_eq
add_near_objects_lem_example = add_near_objects_lem offered ranging grown refl

-- The client goes after two events, before the last two.
destroy_delivers_all_example :
    let u = destroy grown in
    let all =
      on_ranging_started
      ∷ on_session_membership_changed (object 2 20 ∷ []) []
      ∷ on_ranging_stopped
      ∷ on_session_ended
      ∷ [] in
    (u.m_task_queue.worker ≡ TaskQueue.exited)
    × (is_ranging_active u ≡ false)
    × (u.m_task_queue.ran ≡ all)
    × (received 2 u.m_task_queue.ran [] ≡ take 2 all)
unfolding create start_ranging add_near_objects TaskQueue.post near_object_eq is_ranging_active
destroy_delivers_all_example = destroy_delivers_all capabilities first 2 queue_created grown-Reach

ended_twice_run :
    received 5 (destroy (end_session opened).0).m_task_queue.ran []
    ≡ on_session_ended ∷ on_session_ended ∷ []
unfolding create end_session TaskQueue.post is_ranging_active
ended_twice_run = ended_twice capabilities first 5 queue_created here refl

abbrev over : Session ℕ
over = (end_session grown).0

over-Reach : Reach opened over
unfolding create start_ranging add_near_objects TaskQueue.post near_object_eq end_session
over-Reach = later grown-Reach (ends refl)

inactive_after_end_example : is_ranging_active over ≡ false
unfolding create start_ranging add_near_objects TaskQueue.post near_object_eq end_session over-Reach
    grown-Reach ranging-Reach
inactive_after_end_example =
    inactive_after_end capabilities first queue_created over-Reach (((tt, tt), tt), tt) refl

start_within_end_example :
    let (t, stopped) = stop_ranging ranging in
    let (u, started) = start_ranging t in
    let (v, announced) = invoke_event_callback on_session_ended u in
    (stopped ≡ some tt)
    × (started ≡ some (record { status = running }))
    × (announced ≡ some tt)
    × (v.m_task_queue.posted ≡ t.m_task_queue.posted ++ on_ranging_started ∷ on_session_ended ∷ [])
    × (is_ranging_active v ≡ true)
start_within_end_example = start_within_end capabilities first queue_created ranging-Reach refl
