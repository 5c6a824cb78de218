-- ===== src/Permissions/Exclusive.antt =====
-- The processes of cw04/zad2/zad2.c take turns: no signal is sent while another of its kind is on its
-- way.
use agh_so.Prelude.{
  ℕ, ◌≡◌, refl, sym, ap, ◌∙◌, Bool, true, false, Option, none, some, arith, ◌==◌, if◌then◌else◌,
}
use agh_so.Permissions.Family.{Place, Family, deliver, Move, Reach}
use agh_so.Permissions.Turns.{
  holding, is_creating, is_some, Turn, IsTurn, creating-wake, put-same, put-gain, put-lose,
  IsTurn-of_flag, IsTurn-of_posts, IsTurn-of_parent, IsTurn-of_usr1, IsTurn-of_chld,
  IsTurn-of_child,
}

-- A step after which the turn is whose it was.
keeps :
    {s s' : Family} {t : Turn}
    → IsTurn s t
    → s'.flag ≡ s.flag
    → is_creating s'.parent ≡ is_creating s.parent
    → is_some s'.usr1 ≡ is_some s.usr1
    → s'.chld ≡ s.chld
    → s'.posts ≡ s.posts
    → ((q : ℕ) → holding (s'.places q) ≡ holding (s.places q))
    → IsTurn s' t
keeps v flag parent usr1 chld posts places = record {
  flag = flag ∙ v.flag;
  parent = parent ∙ v.parent;
  usr1 = usr1 ∙ v.usr1;
  chld = chld ∙ v.chld;
  posts = posts ∙ v.posts;
  places = λ q. places q ∙ v.places q;
}

-- A step with which the child `p` takes the turn.
takes :
    {s s' : Family}
    → IsTurn s Turn.free
    → (p : ℕ) → s'.flag ≡ 0
    → is_creating s'.parent ≡ is_creating s.parent
    → is_some s'.usr1 ≡ is_some s.usr1
    → s'.chld ≡ s.chld
    → s'.posts ≡ s.posts
    → ((q : ℕ) → holding (s'.places q) ≡ (p == q))
    → IsTurn s' (Turn.childs p)
takes v p flag parent usr1 chld posts places = record {
  flag = flag;
  parent = parent ∙ v.parent;
  usr1 = usr1 ∙ v.usr1;
  chld = chld ∙ v.chld;
  posts = posts ∙ v.posts;
  places = places;
}

Move-IsTurn :
    {children limit : ℕ} {s s' : Family} {t : Turn}
    → IsTurn s t
    → Move children limit s s'
    → (t' : Turn) × IsTurn s' t'
Move-IsTurn {s = s} {t = t} v (Move.fork p at room new) =
    (t, keeps v refl refl refl refl refl (put-same s.places p Place.asleep (ap holding (sym new))))
Move-IsTurn v (Move.created at all) =
    let v' = IsTurn-of_parent v (ap is_creating at) in
    (
      Turn.free,
      record {
        flag = omega (arith, v'.flag);
        parent = refl;
        usr1 = v'.usr1;
        chld = v'.chld;
        posts = v'.posts;
        places = v'.places;
      },
    )
Move-IsTurn {t = t} v (Move.test at more) =
    (t, keeps v refl (ap is_creating (sym at)) refl refl refl (λ q. refl))
Move-IsTurn {t = t} v (Move.finish at all) =
    (t, keeps v refl (ap is_creating (sym at)) refl refl refl (λ q. refl))
Move-IsTurn {t = t} v (Move.wait at) =
    (t, keeps v refl (ap is_creating (sym at)) refl refl refl (λ q. refl))
Move-IsTurn {s = s} v (Move.catch_request p g allowed sent run) =
    let v' = IsTurn-of_usr1 v (ap is_some sent) in
    (
      Turn.handler,
      record {
        flag = v'.flag;
        parent = creating-wake s.parent ∙ v'.parent;
        usr1 = refl;
        chld = v'.chld;
        posts = omega (arith, v'.posts);
        places = v'.places;
      },
    )
Move-IsTurn {s = s} v (Move.catch_exit sent) =
    let v' = IsTurn-of_chld v sent in
    (
      Turn.handler,
      record {
        flag = v'.flag;
        parent = creating-wake s.parent ∙ v'.parent;
        usr1 = v'.usr1;
        chld = refl;
        posts = omega (arith, v'.posts);
        places = v'.places;
      },
    )
Move-IsTurn {s = s} {t = t} v (Move.catch_rt r sent) =
    (t, keeps v refl (creating-wake s.parent) refl refl refl (λ q. refl))
Move-IsTurn v (Move.post q some_posts) =
    let (v', e) = IsTurn-of_posts v q some_posts in
    (
      Turn.free,
      record {
        flag = omega (arith, v'.flag);
        parent = v'.parent;
        usr1 = v'.usr1;
        chld = v'.chld;
        posts = e;
        places = v'.places;
      },
    )
Move-IsTurn {s = s} v (Move.ask p f at some_flag) =
    let (v', e) = IsTurn-of_flag v f some_flag in
    (
      Turn.childs p,
      takes v' p e refl refl refl refl (put-gain s.places p Place.asking v'.places refl),
    )
Move-IsTurn {s = s} v (Move.request p at) =
    let v' = IsTurn-of_child v p (ap holding at) in
    (
      Turn.request,
      record {
        flag = v'.flag;
        parent = v'.parent;
        usr1 = is_some-deliver s.usr1 p;
        chld = v'.chld;
        posts = v'.posts;
        places = put-lose s.places p Place.asked v'.places refl;
      },
    )
  where
    is_some-deliver : (o : Option ℕ) (p : ℕ) → is_some (deliver o p) ≡ true
    is_some-deliver none p = refl
    is_some-deliver (some q) p = refl
Move-IsTurn {s = s} {t = t} v (Move.pause p at) =
    (t, keeps v refl refl refl refl refl (put-same s.places p Place.paused (ap holding (sym at))))
Move-IsTurn {s = s} {t = t} v (Move.interrupt p at sent) = (
  t,
  keeps v refl refl refl refl refl
      (put-same s.places p (Place.handling true) (ap holding (sym at))),
)
Move-IsTurn {s = s} {t = t} v (Move.interrupt_early p at sent) = (
  t,
  keeps v refl refl refl refl refl
      (put-same s.places p (Place.handling false) (ap holding (sym at))),
)
Move-IsTurn {s = s} v (Move.start_work p f b at some_flag) =
    let (v', e) = IsTurn-of_flag v f some_flag in
    (
      Turn.childs p,
      takes v' p e refl refl refl refl (put-gain s.places p (Place.working b) v'.places refl),
    )
Move-IsTurn {s = s} {t = t} v (Move.work p b at) = (
  t,
  keeps v refl refl refl refl refl (put-same s.places p (Place.worked b) (ap holding (sym at))),
)
Move-IsTurn {s = s} v (Move.end_work p b at) =
    let v' = IsTurn-of_child v p (ap holding at) in
    (
      Turn.free,
      record {
        flag = omega (arith, v'.flag);
        parent = v'.parent;
        usr1 = v'.usr1;
        chld = v'.chld;
        posts = v'.posts;
        places =
            put-lose s.places p (if b then Place.leaving else Place.missed) v'.places (after b);
      },
    )
  where
    after : (b : Bool) → holding (if b then Place.leaving else Place.missed) ≡ false
    after true = refl
    after false = refl
Move-IsTurn {s = s} v (Move.leave p f at some_flag) =
    let (v', e) = IsTurn-of_flag v f some_flag in
    (
      Turn.childs p,
      takes v' p e refl refl refl refl (put-gain s.places p Place.exiting v'.places refl),
    )
Move-IsTurn {s = s} v (Move.exit p at) =
    let v' = IsTurn-of_child v p (ap holding at) in
    (
      Turn.exit,
      record {
        flag = v'.flag;
        parent = v'.parent;
        usr1 = v'.usr1;
        chld = refl;
        posts = v'.posts;
        places = put-lose s.places p Place.left v'.places refl;
      },
    )

pub Reach-IsTurn :
    {children limit : ℕ} {s : Family} → Reach children limit s → (t : Turn) × IsTurn s t
Reach-IsTurn Reach.begin = (
  Turn.parents,
  record { flag = refl; parent = refl; usr1 = refl; chld = refl; posts = refl; places = λ p. refl },
)
Reach-IsTurn (Reach.later r m) = let (t, v) = Reach-IsTurn r in Move-IsTurn v m

none_there : (o : Option ℕ) → is_some o ≡ false → o ≡ none
none_there none h = refl
none_there (some p) h = absurd (cc)

-- In every state that the processes can come to: a child that sends SIGUSR1 or exits, or that stands
-- between `sem_wait` and `sem_post` in its handler, is the only one; no SIGUSR1 and no SIGCHLD is on
-- its way, so that none gets lost in another, and the parent is in no handler that posts.
pub one_at_a_time :
    {children limit : ℕ} {s : Family} (p : ℕ)
    → Reach children limit s
    → holding (s.places p) ≡ true
    → (s.usr1 ≡ none)
      × (s.chld ≡ false)
      × (s.posts ≡ 0)
      × (s.flag ≡ 0)
      × ((q : ℕ) → holding (s.places q) ≡ true → p ≡ q)
one_at_a_time {s = s} p r h =
    let (t, v) = Reach-IsTurn r in
    let v' = IsTurn-of_child v p h in
    (
      none_there s.usr1 v'.usr1,
      v'.chld,
      v'.posts,
      v'.flag,
      λ q hq. let test : (p == q) ≡ true = sym (v'.places q) ∙ hq in ground arith,
    )
