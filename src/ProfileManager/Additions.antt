-- ===== src/ProfileManager/Additions.antt =====
-- lib/nearobject/service/NearObjectProfileManager.cxx: AddProfile on several threads. The exclusive lock
-- covers the push onto the profiles alone; PersistProfile reads the file, opens it to write, which
-- empties it, and writes it, each of which is a step here.
mod Race
mod Tests
use near_object_framework.Common.{
  ℕ, zero, suc, List, [], ◌∷◌, ◌++◌, Option, none, some, if◌then◌else◌,
}
use near_object_framework.Profile.{NearObjectProfile}
use near_object_framework.Persister.{
  PersistResult, succeeded, failed, failed_to_open_file, failed_to_parse_file, unknown_error, Json,
  Streams, read_persisted_profiles, write_profiles,
}
use near_object_framework.ProfileManager.{
  ProfileLifetime, persistent, ephemeral, NearObjectProfileManager,
}

-- A thread in AddProfile behind the push: about to read the file, about to open it to write, about to
-- write these profiles to it, or through; without a result if it left by an exception.
pub data Writer : Type 0 where
  to_read : NearObjectProfile → Writer
  to_open : NearObjectProfile → Option (PersistResult × List NearObjectProfile) → Writer
  to_write : List NearObjectProfile → Writer
  done : Option PersistResult → Writer

-- The file when it has just been opened to write, and what a text that is written from the start makes
-- of what is in the file.
pub record Files (Text : Type 0) : Type 0 where
  pub empty : Text
  pub over : (new old : Text) → Text

-- The manager with the threads that add persistent profiles, in the order in which they came.
pub record Additions (Text : Type 0) : Type 0 where
  pub manager : NearObjectProfileManager (Option Text)
  pub writers : List Writer

-- What happens next: a thread pushes a profile, or the writer with this number goes on.
pub data Turn (Text : Type 0) : Type 0 where
  adds : NearObjectProfile → ProfileLifetime → Turn Text
  goes_on : (writer : ℕ) → Streams Text → Turn Text

module _ {J Text : Type 0} (json : Json J Text) (files : Files Text) where
  -- What has been written to a new file, on top of what is there.
  abbrev on_top : Option Text → Option Text → Option Text
  on_top none old = old
  on_top (some new) none = some new
  on_top (some new) (some old) = some (files.over new old)

  -- The ofstream of PersistProfile, by what ReadPersistedProfiles gave.
  pub open_on :
      Streams Text
      → NearObjectProfile
      → Option (PersistResult × List NearObjectProfile)
      → Option Text
      → Writer × Option Text
  open_on streams p none file = (done none, file)
  open_on streams p (some (succeeded, profiles)) file =
      if streams.write_fails
      then (done (some failed), file)
      else (to_write (profiles ++ p ∷ []), some files.empty)
  open_on streams p (some (failed, profiles)) file = (done (some failed), file)
  open_on streams p (some (failed_to_open_file, profiles)) file =
      (done (some failed_to_open_file), file)
  open_on streams p (some (failed_to_parse_file, profiles)) file =
      (done (some failed_to_parse_file), file)
  open_on streams p (some (unknown_error, profiles)) file = (done (some unknown_error), file)

  -- The next step of one writer.
  pub write_on : Streams Text → Writer → Option Text → Writer × Option Text
  unfolding open_on
  write_on streams (to_read p) file =
      (to_open p (read_persisted_profiles json streams.opens file), file)
  write_on streams (to_open p read) file = open_on streams p read file
  write_on streams (to_write profiles) file =
      let (written, result) = write_profiles json streams profiles in
      (done result, on_top written file)
  write_on streams (done result) file = (done result, file)

  pub write_at : ℕ → Streams Text → List Writer → Option Text → List Writer × Option Text
  unfolding write_on
  write_at n streams [] file = ([], file)
  write_at zero streams (w ∷ ws) file =
      let (w', file') = write_on streams w file in (w' ∷ ws, file')
  write_at (suc n) streams (w ∷ ws) file =
      let (ws', file') = write_at n streams ws file in (w ∷ ws', file')

  -- A profile that is to be kept gets a writer.
  abbrev joined : ProfileLifetime → NearObjectProfile → List Writer → List Writer
  joined persistent p ws = ws ++ to_read p ∷ []
  joined ephemeral p ws = ws

  pub advance : Turn Text → Additions Text → Additions Text
  unfolding write_at
  advance (adds p lifetime) a = record {
    manager = record a.manager { m_profiles = a.manager.m_profiles ++ p ∷ [] };
    writers = joined lifetime p a.writers;
  }
  advance (goes_on n streams) a =
      let (ws, file) = write_at n streams a.writers a.manager.m_persister in
      record { manager = record a.manager { m_persister = file }; writers = ws }

  pub advance_all : List (Turn Text) → Additions Text → Additions Text
  unfolding advance
  advance_all [] a = a
  advance_all (m ∷ ms) a = advance_all ms (advance m a)
