-- ===== src/Tests/Jobs.antt =====
-- The theorems on memories, extraction jobs, settings and conversations at concrete inputs.
use be_miawai.Database.Conversations.Thread.{
  same, inserted, touched, get_or_create_channel_conversation_stable,
}
use be_miawai.Base.{
  ◌≡◌, ◌≤◌, ◌+◌, refl, List, [], ◌∷◌, none, true, false, codes, text_eq, arith, ◌<◌,
}
use be_miawai.Base.Ints.{pos, limit_or, exceeds}
use be_miawai.Base.Lists.{All, Any, length, contains}
use be_miawai.Models.{MemoryInput, RuntimeSettings, UserMemory, Conversation}
use be_miawai.Database.World.{World, JobRow, ok, err, ConversationRow}
use be_miawai.Tests.Sample.{sample}
use be_miawai.Database.WhatsApp.{pending}
use be_miawai.Database.Jobs.Machine.{IsSound, claims_left, Run-bounded, next, claim, fail, stop}
use be_miawai.Database.Jobs.{claim_due_memory_extraction_jobs, fail_job, is_due, start_job}
use be_miawai.Handlers.Extraction.{Extractor, process_due_memory_extraction_jobs}
use be_miawai.Handlers.Extraction.Drain.{weights, process_due_memory_extraction_jobs_ends}
use be_miawai.Database.Memories.Keyed.{
  Operation, upsert, IsKeyed, run_operation, delete, run_operations, run_operations-IsKeyed,
}
use be_miawai.Database.Rows.Count.{count}
use be_miawai.Database.Memories.{TextSearch, search_memories, upsert_memory, list_memories_by_user}
use be_miawai.Database.Rows.{any_row, touch_rows, rows_where, delete_rows}
use be_miawai.Database.Memories.Own.{search_memories-run_operation}
use be_miawai.Database.Jobs.Moves.{Moves}
use be_miawai.Database.Jobs.Claims.{claim_due_memory_extraction_jobs_sound}
use be_miawai.Database.Runtime.Catalog.{get-upsert_runtime_settings, IsCleaned}
use be_miawai.Database.Runtime.{upsert_runtime_settings, get_runtime_settings}
use be_miawai.Database.Conversations.{get_or_create_channel_conversation, upsert_thread}
use be_miawai.Base.Strings.{folded, trim_space, trim_right, trim_left, is_space, snoc_trim, lower}
use be_miawai.Database.Memories.Listed.{list_memories_by_user-upsert_memory}
use be_miawai.Base.Split.{join}
use be_miawai.Database.Subscriptions.{hour}

abbrev job_row : JobRow
job_row = record {
  job = record {
    id = codes "memjob_1";
    user_id = codes "ada";
    conversation_id = codes "con_1";
    user_message = codes "I like tea";
    assistant_reply = codes "Noted";
    status = pending;
    attempts = 0;
    last_error = [];
    run_after = 900;
    created_at = 900;
    updated_at = 900;
  };
  max_attempts = 3;
  locked_at = none;
}

abbrev queued : World
queued = record sample { content = record sample.content { memory_jobs = job_row ∷ [] } }

Run-bounded_example :
    IsSound (fail_job 1005 [] (start_job 1000 job_row))
    × (1 + claims_left (fail_job 1005 [] (start_job 1000 job_row)) ≤ claims_left job_row)
unfolding text_eq
Run-bounded_example =
    Run-bounded 1 job_row (fail_job 1005 [] (start_job 1000 job_row))
      (next 1 0 job_row (start_job 1000 job_row) (fail_job 1005 [] (start_job 1000 job_row))
        (claim 1000 job_row refl)
        (next 0 0 (start_job 1000 job_row) (fail_job 1005 [] (start_job 1000 job_row))
          (fail_job 1005 [] (start_job 1000 job_row)) (fail 1005 [] (start_job 1000 job_row) refl)
          (stop (fail_job 1005 [] (start_job 1000 job_row)))))
      (record { capped = omega arith; live = λ h. omega arith; spent = λ h. ground arith })

claim_due_memory_extraction_jobs_sound_example :
    (taken : List JobRow) × ((claim_due_memory_extraction_jobs (pos 3) queued).0 ≡ ok taken)
    × All (λ s. Any (λ r. (is_due 1000 r ≡ true) × (s ≡ start_job 1000 r)) (job_row ∷ [])) taken
    × (length taken ≤ limit_or 20 5 (pos 3))
    × (length taken < limit_or 20 5 (pos 3)
        → any_row
            (is_due 1000)
            (claim_due_memory_extraction_jobs (pos 3) queued).1.content.memory_jobs
          ≡ false)
    × Moves (job_row ∷ []) (claim_due_memory_extraction_jobs (pos 3) queued).1.content.memory_jobs
claim_due_memory_extraction_jobs_sound_example =
    claim_due_memory_extraction_jobs_sound (pos 3) queued refl

-- A model that never answers, and takes five nanoseconds.
abbrev pub silent : Extractor
silent = record {
  digest = λ t. t;
  chat = λ s job. err (codes "no answer");
  elapsed = λ job. 5;
  decode = λ t. none;
  describe = λ e. [];
  config = record {
    default_provider = [];
    default_provider_base_url = [];
    default_provider_api_key = codes "k";
    default_provider_system = [];
    default_provider_models = codes "m" ∷ [];
    managed_ai_api_key = [];
  };
}

abbrev no_settings : RuntimeSettings
no_settings = record {
  provider = [];
  base_url = [];
  api_key = [];
  system_prompt = [];
  models = record { active = []; all = [] };
}

process_due_memory_extraction_jobs_ends_example :
    ((process_due_memory_extraction_jobs silent 8 no_settings queued).0 ≡ true)
    × Moves
        (job_row ∷ [])
        (process_due_memory_extraction_jobs silent 8 no_settings queued).1.content.memory_jobs
unfolding weights text_eq any_row
process_due_memory_extraction_jobs_ends_example =
    process_due_memory_extraction_jobs_ends silent no_settings 8 queued (refl, tt) (omega arith)

abbrev tea : MemoryInput
tea = record {
  domain = codes "Chat";
  kind = [];
  title = [];
  content = codes " likes tea ";
  source_conversation_id = [];
  confidence = pos 0;
  metadata = [];
}

abbrev operations : List Operation
operations =
    upsert (codes "ada") tea ∷ upsert (codes "ada") tea ∷ delete (codes "ada") (codes "mem_r0") ∷ []

run_operations-IsKeyed_example :
    IsKeyed (run_operations (λ t. t) operations sample).content.memories
unfolding count
run_operations-IsKeyed_example =
    run_operations-IsKeyed (λ t. t) operations sample
      (record { keys = λ u h. omega arith; ids = λ i. omega arith })

abbrev search : TextSearch
search = record { matches = λ q m. contains (m.content ∷ []) q; by_rank = λ q rs. rs }

search_memories-run_operation_example :
    (search_memories search
      (codes "bob")
      (codes "tea")
      (pos 5)
      (run_operation (λ t. t) (upsert (codes "ada") tea) sample)).0
    ≡ (search_memories search (codes "bob") (codes "tea") (pos 5) sample).0
unfolding text_eq
search_memories-run_operation_example =
    search_memories-run_operation (λ t. t) search (codes "bob") (codes "tea") (pos 5)
      (upsert (codes "ada") tea) sample refl refl

abbrev tea_memory : UserMemory
tea_memory = record {
  id = codes "mem_r0";
  domain = codes "chat";
  kind = codes "fact";
  title = codes "likes tea";
  content = codes "likes tea";
  source_conversation_id = [];
  confidence = pos 700;
  metadata = [];
  created_at = 1000;
  updated_at = 1000;
}

list_memories_by_user-upsert_memory_example :
    (ms : List UserMemory) × ((list_memories_by_user
        (codes "ada")
        (pos 0)
        (upsert_memory (λ t. t) (codes "ada") tea sample).1).0
      ≡ ok (tea_memory ∷ ms))
unfolding upsert_memory folded trim_space trim_right trim_left join is_space snoc_trim text_eq lower
    exceeds
list_memories_by_user-upsert_memory_example =
    list_memories_by_user-upsert_memory (λ t. t) (codes "ada") tea (pos 0) sample {m = tea_memory}
      refl refl

get-upsert_runtime_settings_example :
    (s : RuntimeSettings) × ((upsert_runtime_settings (codes "ada") no_settings sample).0 ≡ ok s)
    × ((get_runtime_settings
          (codes "ada")
          (upsert_runtime_settings (codes "ada") no_settings sample).1).0
        ≡ ok s)
    × IsCleaned no_settings s
get-upsert_runtime_settings_example =
    get-upsert_runtime_settings (codes "ada") no_settings sample refl

abbrev thread : Conversation
thread = record {
  id = codes "con_r0";
  title = codes "New chat";
  pinned = false;
  is_cloud_synced = true;
  channel = codes "whatsapp";
  channel_thread_id = codes "62@s";
  channel_display_name = codes "Bob";
  provider = codes "openai";
  model = codes "m";
  last_message_preview = [];
  message_count = 0;
  updated_at = 1000;
}

-- The first call, and an hour later, after the conversation was renamed and another one was begun.
abbrev called : World
called =
    (get_or_create_channel_conversation (codes "bob") (codes "whatsapp") (codes "62@s")
      (codes "Bob") [] (codes "openai") (codes "m") sample).1

abbrev retitled : ConversationRow → ConversationRow
retitled r = record r { conversation = record r.conversation { title = codes "Tea" } }

abbrev other_thread : ConversationRow
other_thread = record {
  conversation = record thread { id = codes "con_x"; channel_thread_id = codes "63@s" };
  user_id = codes "bob";
}

abbrev an_hour_later : World
an_hour_later = record called {
  now = 1000 + hour;
  content = record called.content {
    conversations =
        other_thread
        ∷ touch_rows (λ r. text_eq r.user_id (codes "bob")) retitled called.content.conversations;
  };
}

get_or_create_channel_conversation_stable_example :
    (c' : Conversation) × ((get_or_create_channel_conversation
        (codes "bob")
        (codes "whatsapp")
        (codes "62@s")
        (codes "B")
        (codes "t")
        (codes "p")
        (codes "n")
        an_hour_later).0
      ≡ ok c')
    × (c'.id ≡ thread.id)
unfolding get_or_create_channel_conversation trim_space trim_right trim_left is_space snoc_trim
    text_eq count any_row touch_rows rows_where delete_rows upsert_thread
get_or_create_channel_conversation_stable_example =
    get_or_create_channel_conversation_stable (codes "bob") (codes "whatsapp") (codes "62@s")
      (codes "Bob") [] (codes "openai") (codes "m") (codes "B") (codes "t") (codes "p") (codes "n")
      sample an_hour_later {c = thread} refl (omega arith) refl
      (inserted other_thread refl
        (touched (λ r. text_eq r.user_id (codes "bob")) retitled (λ r. refl) (λ r. refl) same))
      refl refl
