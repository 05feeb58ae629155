-- ===== src/System/Occupancy.antt =====
-- The changes of the voice data keep the bot sound.
use dpp_bot.Base.{ℕ, arith}
use dpp_bot.Dict.{Map, contains, assign, erase}
use dpp_bot.Dict.Laws.{
  find-assign, find-erase, find-update, erase-IsOrdered, assign-IsOrdered, update-IsOrdered,
}
use dpp_bot.Guild.{VoiceMemberInfo}
use dpp_bot.Task.{modify}
use dpp_bot.Voice.{enter, exit, forget, seed, members_of, emplace_all}
use dpp_bot.System.Sound.{Keeps}

pub forget-Keeps : (guild : ℕ) → Keeps (modify (forget guild))
unfolding contains
forget-Keeps guild = record {
  at = λ t h. record {
    balanced = h.balanced;
    unasked = h.unasked;
    awaited = h.awaited;
    covered = λ g e. ground (
      arith,
      h.covered g,
      find-erase g guild t.bot.seeded_voice_guilds,
      find-erase g guild t.bot.voice_occupancy,
    );
    infos_order = h.infos_order;
    messages_order = h.messages_order;
    occupancy_order = erase-IsOrdered guild t.bot.voice_occupancy h.occupancy_order;
    seeded_order = erase-IsOrdered guild t.bot.seeded_voice_guilds h.seeded_order;
  };
}

pub enter-Keeps : (guild user : ℕ) (info : VoiceMemberInfo) → Keeps (modify (enter guild user info))
unfolding contains
enter-Keeps guild user info = record {
  at = λ t h. record {
    balanced = h.balanced;
    unasked = h.unasked;
    awaited = h.awaited;
    covered = λ g e. ground (
      arith,
      h.covered g,
      find-assign g guild (assign user info (members_of guild t.bot.voice_occupancy))
          t.bot.voice_occupancy,
    );
    infos_order = h.infos_order;
    messages_order = h.messages_order;
    occupancy_order = assign-IsOrdered guild _ t.bot.voice_occupancy h.occupancy_order;
    seeded_order = h.seeded_order;
  };
}

pub exit-Keeps : (guild user : ℕ) → Keeps (modify (exit guild user))
unfolding contains
exit-Keeps guild user = record {
  at = λ t h. record {
    balanced = h.balanced;
    unasked = h.unasked;
    awaited = h.awaited;
    covered =
        λ g e. ground (arith, h.covered g, find-update g guild (erase user) t.bot.voice_occupancy);
    infos_order = h.infos_order;
    messages_order = h.messages_order;
    occupancy_order = update-IsOrdered guild _ t.bot.voice_occupancy h.occupancy_order;
    seeded_order = h.seeded_order;
  };
}

pub seed-Keeps : (guild : ℕ) (entries : Map VoiceMemberInfo) → Keeps (modify (seed guild entries))
unfolding contains
seed-Keeps guild entries = record {
  at = λ t h. record {
    balanced = h.balanced;
    unasked = h.unasked;
    awaited = h.awaited;
    covered = λ g e. ground (
      arith,
      h.covered g,
      find-assign g guild (emplace_all entries (members_of guild t.bot.voice_occupancy))
          t.bot.voice_occupancy,
      find-assign g guild tt t.bot.seeded_voice_guilds,
    );
    infos_order = h.infos_order;
    messages_order = h.messages_order;
    occupancy_order = assign-IsOrdered guild _ t.bot.voice_occupancy h.occupancy_order;
    seeded_order = assign-IsOrdered guild tt t.bot.seeded_voice_guilds h.seeded_order;
  };
}
