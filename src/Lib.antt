-- ===== src/Lib.antt =====
-- A model of aku, a terminal browser for Kubernetes, and what holds of it.
--
-- One goroutine, the update loop of internal/app, owns the state of the user interface and calls the
-- components below in turn; a model has one function per method, from the state before to the
-- state after. The stores that other goroutines share hold a lock for each method, so that a method
-- is one step there too. The modules:
--   Base         lists, maps, integers and Boolean tests that the modules share;
--   RingBuffer   internal/ui/ringbuffer.go, the bounded store of log lines;
--   Layout       internal/layout/layout.go, splits, panel, focus, zoom and screen rectangles, over
--                what it sets of the panes of internal/ui;
--   KeyTrie      internal/config/keytrie.go, key sequences;
--   KeyBinding   internal/config/binding.go, the user's bindings, nested and restricted to contexts,
--                compiled into the trees that KeyTrie resolves;
--   Notify       internal/notify/store.go, the bounded store of messages;
--   PortForward  internal/portforward/registry.go, the running port-forwards;
--   K8s          internal/k8s/store.go and debounce.go, the cache of watched objects and the debounced
--                notices of its changes, with informer events and late timers as steps;
--   Cluster      internal/cluster/manager.go, a cluster with its store for each kube-context;
--   Search       internal/ui/searchstate.go, the pattern of a search and its matches;
--   LogView      internal/ui/logview.go, the log panel over the ring buffer and two searches: lines
--                that come and go, filter, matches, soft wrap, scrolling. The highlighter, the text
--                measures and the regular expressions are parameters;
--   WordMotion   internal/ui/wordmotion.go, sub-word boundaries in a text input;
--   FuzzyMatch   internal/ui/fuzzymatch.go, the resource names that match a query;
--   ResourceList internal/ui/resourcelist.go, navstack.go and sort.go: a pane's objects, its filter,
--                search, sort order and drilled views, over a table widget that is a parameter;
--   AnsiSplit    internal/ui/ansisplit.go, the rows and highlights of a line with escape sequences;
--   Pipeline     internal/highlight/segments.go and pipeline.go, highlighters over the plain parts of a
--                line;
--   PluginRegistry  internal/plugin/registry.go, the resource plugins by name and GVR;
--   Collision    internal/app/collision.go, which of them the picker shows with their group;
--   Manifest     internal/manifest/synth.go, the runtime objects that are made up for a manifest;
--   Overlay      internal/ui/overlay_panel.go, a panel with a list and text inputs;
--   Picker       internal/ui/picker.go, a panel that selects one of the items that a filter leaves.
--
-- Go's `int` is ℤ where it may be negative and ℕ where the code keeps it from that, without a
-- bound. A slice is a list; a nil slice is the empty one. A map is an association list. An index
-- out of range, at which Go panics, gives none or changes nothing in the model. Each loop
-- runs over a list or down a number, but the motion to the next word, which has as much fuel as there
-- are runes behind the cursor.
--
-- Not modelled: rendering, text widgets, the Kubernetes client and its informers, Helm, files,
-- subprocesses, and the wiring of messages between them.
pub mod Base
pub mod RingBuffer
pub mod Layout
pub mod KeyTrie
pub mod Notify
pub mod PortForward
pub mod K8s
pub mod Cluster
pub mod Search
pub mod LogView
pub mod KeyBinding
pub mod WordMotion
pub mod FuzzyMatch
pub mod ResourceList
pub mod AnsiSplit
pub mod PluginRegistry
pub mod Collision
pub mod Pipeline
pub mod Manifest
pub mod Overlay
pub mod Picker
