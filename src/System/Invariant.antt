-- ===== src/System/Invariant.antt =====
-- The bot is sound between any two methods.
use dpp_bot.Base.{ℕ, Option, refl, subst, arith}
use dpp_bot.Dict.{contains, find}
use dpp_bot.Text.{Text}
use dpp_bot.Task.{Task, Dpp}
use dpp_bot.Json.{JsonLib}
use dpp_bot.System.{
  Event, World, enter_world, world_of, new_world, handle_event, Step, returning, throwing, Reach,
  fresh, step,
}
use dpp_bot.System.Sound.{IsSound, Keeps, Leaves, same-IsSound, spawned, joined}
use dpp_bot.System.Keeping.{
  Keeps-return, Keeps-done, Keeps-throw, Keeps-observe, Keeps-read, Keeps-find, Keeps-deref,
  Keeps-bind, Keeps-catch, Keeps-lock, Keeps-when, Keeps-if, Keeps-call, Keeps-write, Keeps-yield,
}
use dpp_bot.System.Rules.{Rules}
use dpp_bot.System.Methods.Events.{handle_event-rule}
use dpp_bot.System.Notes.{remember-Keeps}
use dpp_bot.System.Occupancy.{forget-Keeps, enter-Keeps, exit-Keeps, seed-Keeps}
use dpp_bot.System.Entries.{emplace_guild-Keeps, erase_guild-Keeps, start_audio_thread-Keeps}
use dpp_bot.System.Stopping.{stop_audio_thread-Keeps, stopped-Keeps}
use dpp_bot.System.Judging.{judge_and_start-Keeps}

new_world-IsSound : (env : ℕ → Dpp) → IsSound (enter_world env new_world)
unfolding spawned joined contains find
new_world-IsSound env = record {
  balanced = λ g. refl;
  unasked = λ g. refl;
  awaited = λ g p. ground arith;
  covered = λ g e. ground arith;
  infos_order = tt;
  messages_order = tt;
  occupancy_order = tt;
  seeded_order = tt;
}

-- Soundness goes through sequences, and every part that touches the bot keeps it.
keeps : Rules (λ A m. Keeps m)
keeps = record {
  of_return = λ A a. Keeps-return a;
  of_done = Keeps-done;
  of_throw = λ A e. Keeps-throw e;
  of_observe = Keeps-observe;
  of_read = λ A f. Keeps-read f;
  of_find = Keeps-find;
  of_deref = Keeps-deref;
  of_bind = λ A B m f h k. Keeps-bind m f h k;
  of_catch = λ A m f h k. Keeps-catch m f h k;
  of_lock = λ A x m h. Keeps-lock x m h;
  of_when = Keeps-when;
  of_if = λ A b m n h k. Keeps-if b m n h k;
  of_call = Keeps-call;
  of_write = Keeps-write;
  of_remember = remember-Keeps;
  of_forget = forget-Keeps;
  of_enter = enter-Keeps;
  of_exit = exit-Keeps;
  of_seed = seed-Keeps;
  of_emplace = emplace_guild-Keeps;
  of_erase = erase_guild-Keeps;
  of_start = start_audio_thread-Keeps;
  of_stop = stop_audio_thread-Keeps;
  of_ask = stopped-Keeps;
  of_judge = judge_and_start-Keeps;
  of_yield = Keeps-yield;
}

module _ (lib : JsonLib) (files : Text → Option ℕ) where
  handle_event-Keeps : (e : Event) → Keeps (handle_event lib files e)
  handle_event-Keeps = handle_event-rule lib files keeps

  -- A task differs from the world that it leaves only in what no law speaks of.
  settled-IsSound : (env : ℕ → Dpp) (u : Task) → IsSound u → IsSound (enter_world env (world_of u))
  settled-IsSound env u h = same-IsSound u _ refl (λ g. refl) (λ g. refl) (λ g. refl) h

  Step-IsSound :
      (w v : World)
      → Step lib files w v
      → ((env : ℕ → Dpp) → IsSound (enter_world env w))
      → (env : ℕ → Dpp) → IsSound (enter_world env v)
  Step-IsSound w _ (returning e env u cause run) h env' =
      settled-IsSound env' u
        (subst (Leaves {A = Unit {0}}) run ((handle_event-Keeps e).at (enter_world env w) (h env)))
  Step-IsSound w _ (throwing e env error u cause run) h env' =
      settled-IsSound env' u
        (subst (Leaves {A = Unit {0}}) run ((handle_event-Keeps e).at (enter_world env w) (h env)))

  -- In every state that the client comes to, method after method, whatever users, Discord, the local
  -- server, the clock and dpp do: the audio threads started for a guild are as many as those joined
  -- and the one that its entry holds, if it holds one, and that one is not asked to stop; a guild
  -- whose entry has a leave under way has had a thread started to leave it; a guild whose voice
  -- snapshot is taken has an occupancy; and the four maps are in the order of their keys.
  pub Reach-IsSound :
      (w : World) → Reach lib files w → (env : ℕ → Dpp) → IsSound (enter_world env w)
  Reach-IsSound _ fresh env = new_world-IsSound env
  Reach-IsSound v (step w _ r s) env = Step-IsSound w v s (Reach-IsSound w r) env
