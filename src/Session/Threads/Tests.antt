-- ===== src/Session/Threads/Tests.antt =====
-- Two threads in a session: one adds objects, and another starts the ranging in between.
use near_object_framework.Common.{ℕ, ◌≡◌, refl, true, false, [], ◌∷◌, some}
use near_object_framework.NearObject.{near_object_eq}
use near_object_framework.Session.{
  create, get_near_objects, is_ranging_active, invoke_event_callback, on_ranging_started,
  on_session_membership_changed,
}
use near_object_framework.Session.Events.{ranging_after, members_after}
use near_object_framework.Session.History
use near_object_framework.Session.Tests.{
  object, capabilities, queue_created, first, opened, offered, nat_double,
}
use near_object_framework.Session.Threads.{
  Threads, add, start, MembersGate, RangingGate, idle, members_goes_on, ranging_goes_on,
  enters_members, members_go, enters_ranging, ranging_go, Reach, here, later,
}
use near_object_framework.Session.Threads.Atomic.{methods_are_atomic, members_seen, ranging_seen}
use near_object_framework.Session.Threads.Release.{finish}
use near_object_framework.TaskQueue

abbrev first_in : Threads ℕ
first_in = record (idle opened) { members_gate = MembersGate.entered (add offered) }

abbrev first_changed : Threads ℕ
first_changed = members_goes_on first_in.members_gate first_in

abbrev second_in : Threads ℕ
second_in = record first_changed { ranging_gate = RangingGate.entered start }

abbrev second_changed : Threads ℕ
second_changed = ranging_goes_on second_in.ranging_gate second_in

abbrev both_done : Threads ℕ
both_done = finish second_changed

second_changed-Reach : Reach (idle opened) second_changed
unfolding create members_goes_on
second_changed-Reach =
    later
      (later (later (later here (enters_members (add offered) refl)) members_go)
        (enters_ranging start refl))
      ranging_go

both_done-Reach : Reach (idle opened) both_done
unfolding create members_goes_on finish
both_done-Reach =
    later
      (later
        (later (later (later (later second_changed-Reach members_go) members_go) members_go)
          ranging_go)
        ranging_go)
      ranging_go

methods_are_atomic_example : History.Reach opened both_done.session
unfolding finish create members_goes_on ranging_goes_on
methods_are_atomic_example =
    methods_are_atomic capabilities first queue_created both_done-Reach refl refl

abbrev posted_first : Threads ℕ
posted_first =
    let i = members_goes_on second_changed.members_gate second_changed in
    members_goes_on i.members_gate i

posted_first-Reach : Reach (idle opened) posted_first
posted_first-Reach = later (later second_changed-Reach members_go) members_go

-- The first thread is through, and the second has still to post its event.
members_seen_example :
    members_after first posted_first.session.m_task_queue.posted
    ≡ get_near_objects posted_first.session
unfolding create members_goes_on ranging_goes_on
members_seen_example = members_seen capabilities first queue_created posted_first-Reach refl

ranging_seen_example :
    ranging_after false both_done.session.m_task_queue.posted
    ≡ some (is_ranging_active both_done.session)
unfolding create members_goes_on ranging_goes_on finish
ranging_seen_example = ranging_seen capabilities first queue_created both_done-Reach refl

-- The events come in the order of their posting, not of the changes.
events_of_both :
    both_done.session.m_task_queue.posted
    ≡ on_session_membership_changed (object 2 20 ∷ []) [] ∷ on_ranging_started ∷ []
unfolding create members_goes_on ranging_goes_on finish near_object_eq invoke_event_callback
    TaskQueue.post
events_of_both = refl

not_yet_told :
    (get_near_objects second_changed.session ≡ object 1 10 ∷ object 2 20 ∷ [])
    × (is_ranging_active second_changed.session ≡ true)
    × (second_changed.session.m_task_queue.posted ≡ [])
unfolding create members_goes_on ranging_goes_on near_object_eq get_near_objects is_ranging_active
not_yet_told = (refl, refl, refl)
