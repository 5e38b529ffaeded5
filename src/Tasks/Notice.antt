-- ===== src/Tasks/Notice.antt =====
-- python/oneiro/tasks.py: what a run is told to do, and what the owner is told of its end.
use Prim.Native.String.{◌++◌}
use oneiro_ostis.Prelude.{String, if◌then◌else◌}
use oneiro_ostis.Prelude.Text.{clip, is_empty, join, or_else, split, strip}
use oneiro_ostis.Records.Base.{State, completed, uncertain}
use oneiro_ostis.Records.Kinds.{Task}

-- `prompt_of`
unfoldable pub prompt_of : Task → String
prompt_of t =
    let title = join " " (split t.title) in
    let detail = strip t.detail in if is_empty detail then title else title ++ ("\n\n" ++ detail)

-- `_finished_notice`
unfoldable pub finished_notice : Task → State → String → String
finished_notice t completed notes =
    clip 2000 (strip ("Done: " ++ (or_else t.title "the task" ++ ("\n" ++ notes))))
finished_notice t uncertain notes =
    or_else t.title "the task"
    ++ ": an attempt stopped reporting. Whether it changed anything is unknown, and it was not tried again."
finished_notice t _ notes =
    clip 2000 (strip (or_else t.title "the task" ++ (" did not finish: " ++ notes)))
