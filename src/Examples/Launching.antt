-- ===== src/Examples/Launching.antt =====
-- An example for the program: a single run that reads a string from files that another run has left.
use octet.Prelude.{
  ◌≡◌, refl, true, false, some, [], ◌∷◌, arith, nat_eq, list_eq, list_beq, Bytes, codes,
}
use octet.Disk.{FilePath}
use octet.Storage
use octet.Journal
use octet.Files
use octet.FileChecks
use octet.Lines
use octet.Disk.{set_node}
use octet.Storage.{Storage, fresh, get, insert}
use octet.Storage.Recovery.{AllReadable}
use octet.Storage.Lifecycle.{Round}
use octet.Storage.Lives.{IsIn, started}
use octet.Commands
use octet.Commands.{listed}
use octet.Program.{Outside}
use octet.Snapshot.{Fits}
use octet.Journal.{Store}
use octet.Program.Running.{IsReading}
use octet.Examples.{new_disk, new_storage, well, stamp, uuid, well-IsReadable, readable_answers}

abbrev pub command_draw : Commands.Draw
command_draw = record {
  answers = well;
  journal_answers = well;
  now = stamp;
  new_uuid = uuid;
  time = 5;
}

abbrev pub round : Round
round = record {
  write_answers = well;
  journal_answers = well;
  woken_at = 5;
  now = stamp;
  time = 6;
  snapshot_id = uuid;
}

abbrev pub outside : Outside
outside = record {
  opening = well;
  ensuring = well;
  loading = readable_answers;
  now = stamp;
  time = 5;
  command = command_draw;
  before = [];
  behind = [];
  events = [];
  serving = well;
  leftover = false;
  removed = true;
  completions = [];
  closing = record { waking = some round; last_round = round };
}

all_readable : AllReadable readable_answers
all_readable = record {
  check = well-IsReadable;
  snapshot = well-IsReadable;
  last = well-IsReadable;
  replay = well-IsReadable;
}

abbrev pub to_path : Bytes → FilePath
to_path p = p ∷ []

pub reading : IsReading outside
reading = (well-IsReadable, well-IsReadable, all_readable)

abbrev pub at_start : Storage
at_start = started readable_answers stamp 5 (to_path (codes "data")) new_disk

pub at_start-empty : at_start.data_store ≡ []
unfolding Storage.load_from_disk Storage.load_start Storage.load_rest
    Storage.checkpoint_to_start_from Storage.restore_from_journal FileChecks.is_file_readable
    Journal.replay_journal Files.safe_file_read Lines.each_line set_node list_beq fresh
    Journal.replay_result Journal.replay_content Lines.read_line
at_start-empty = refl

pub none-Fits : Fits []
none-Fits = record { count = omega arith; pairs = tt }

pub new_storage-IsHere : IsIn (to_path (codes "data")) new_storage
unfolding fresh
new_storage-IsHere = (refl, refl)
